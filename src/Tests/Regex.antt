-- ===== src/Tests/Regex.antt =====
-- The regular expressions' file at concrete inputs.
use capptpl.Base.{Bytes, [], arith, codes, refl, true, ◌∷◌, ◌≡◌}
use capptpl.Base.Chars.{skip_spaces}
use capptpl.Regex.Load.{
  Compiled, Setup, good_pattern, lines, looping, newline, overflow, re_policy_load,
}
use capptpl.Regex.Load.Lines.{file_lines}
use capptpl.Regex.Load.Outcome.{re_policy_load_lines, re_policy_load_loops, re_policy_load_overflow}
use capptpl.Regex.Load.Total.{good_lines}

abbrev accept_all : Bytes → Compiled
accept_all p = good_pattern

abbrev all_ready : Setup
all_ready = record { stat_ok = true; fopen_ok = true; malloc_ok = true; opt_ok = true }

two_lines_lem : file_lines (codes "ab\n\n cd\n") ≡ codes "ab" ∷ codes "cd" ∷ []
unfolding file_lines skip_spaces
two_lines_lem = refl

re_policy_load_lines_example :
    re_policy_load accept_all all_ready 8 [] (codes "ab\n\n cd\n")
    ≡ lines (good_lines accept_all (file_lines (codes "ab\n\n cd\n")))
re_policy_load_lines_example =
    re_policy_load_lines accept_all all_ready 8 [] b'a' (codes "b\n\n cd\n") refl (omega arith)
      (λ h. absurd (omega arith)) (omega arith)

re_policy_load_overflow_example : re_policy_load accept_all all_ready 5 [] (codes "ab") ≡ overflow
re_policy_load_overflow_example =
    re_policy_load_overflow accept_all all_ready 4 [] b'a' (codes "b") refl (omega arith)

newline_first : re_policy_load accept_all all_ready 100 [] (newline ∷ codes "ab") ≡ looping
newline_first = re_policy_load_loops accept_all all_ready 100 [] (codes "ab") refl

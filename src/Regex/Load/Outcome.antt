-- ===== src/Regex/Load/Outcome.antt =====
-- How `re_policy_load` ends, by the shape of its file.
use capptpl.Base.{
  Bytes, Lacks, List, [], ap, arith, false, length, refl, suc, sym, true, zero, ℕ, ◌<◌, ◌==◌, ◌∙◌,
  ◌∷◌, ◌≡◌, ◌≢◌, ◌≤◌,
}
use capptpl.Base.Chars.{skip_spaces}
use capptpl.Regex.Load.{
  Compiled, Setup, got, is_ready, lines, load_loop, looping, newline, overflow, push_line,
  re_policy_load, scan, take_line,
}
use capptpl.Regex.Load.Lines.{file_lines, file_lines-take_line}
use capptpl.Regex.Load.Total.{good_lines, load_loop_lem, scan_line, take_line-length, take_line-pos}

take_line-Lacks : (s : Bytes) → Lacks newline s → take_line s ≡ (s, [])
unfolding take_line
take_line-Lacks [] h = refl
take_line-Lacks (c ∷ s) (h, hs) = rw (take_line-Lacks s hs) (ground arith)

Lacks-of_take_line : (s : Bytes) → (take_line s).1 ≡ [] → Lacks newline s
unfolding take_line
Lacks-of_take_line [] h = tt
Lacks-of_take_line (c ∷ s) h = ground (arith, Lacks-of_take_line s)

length_pos : (s : Bytes) → s ≢ [] → 0 < length s
length_pos [] h = absurd (h refl)
length_pos (c ∷ s) h = omega arith

-- The calls before the loop succeed, the file does not start with a newline and holds one: then
-- the loop ends, however the memory of `line` starts, in at most as many rounds as the file has
-- bytes; the result is the lines of the file that are good patterns, in their order.
pub re_policy_load_lines :
    (cre2_new : Bytes → Compiled) (setup : Setup) (fuel : ℕ) (garbage : Bytes) (c : ℕ) (s : Bytes)
    → is_ready setup ≡ true
    → c ≢ newline
    → ¬ Lacks newline (c ∷ s)
    → length (c ∷ s) ≤ fuel
    → re_policy_load cre2_new setup fuel garbage (c ∷ s)
      ≡ lines (good_lines cre2_new (file_lines (c ∷ s)))
unfolding re_policy_load
re_policy_load_lines cre2_new setup fuel garbage c s ready n has f =
    let n' : (c == newline) ≡ false = ground arith in
    let total = take_line-length (c ∷ s) in
    let pos = take_line-pos c s n' in
    let more = length_pos (take_line (c ∷ s)).1 (λ e. has (Lacks-of_take_line (c ∷ s) e)) in
    rw ready (
      load_loop_lem cre2_new fuel (length (c ∷ s)) garbage c s [] n' (omega arith) (omega arith) f
      ∙ ap (λ ls. lines (good_lines cre2_new ls)) (sym (file_lines-take_line c s)))

overflow_step :
    (cre2_new : Bytes → Compiled) (fuel : ℕ) (garbage : Bytes) (c : ℕ) (s : Bytes)
    → Lacks newline (c ∷ s)
    → load_loop cre2_new (suc fuel) (length (c ∷ s)) garbage (c ∷ s) [] ≡ overflow
unfolding load_loop
overflow_step cre2_new fuel garbage c s h =
    let n' : (c == newline) ≡ false = ground (arith, h.0) in
    let t = take_line-Lacks (c ∷ s) h in
    let e : scan (c ∷ s) ≡ got (c ∷ s) (skip_spaces []) =
      scan_line c s n' ∙ ap (λ p. got p.0 (skip_spaces p.1)) t in
    rw (e, load_loop) (ground arith)

-- A file that is one line with no newline at its end makes the loop write one byte past the end
-- of `line`, which has the size of the file.
pub re_policy_load_overflow :
    (cre2_new : Bytes → Compiled) (setup : Setup) (fuel : ℕ) (garbage : Bytes) (c : ℕ) (s : Bytes)
    → is_ready setup ≡ true
    → Lacks newline (c ∷ s)
    → re_policy_load cre2_new setup (suc fuel) garbage (c ∷ s) ≡ overflow
unfolding re_policy_load
re_policy_load_overflow cre2_new setup fuel garbage c s ready h =
    rw ready (overflow_step cre2_new fuel garbage c s h)

stuck_loop :
    (cre2_new : Bytes → Compiled) (fuel size : ℕ) (line s : Bytes) (out : List Bytes)
    → load_loop cre2_new fuel size line (newline ∷ s) out ≡ looping
unfolding load_loop
stuck_loop cre2_new zero size line s out = refl
stuck_loop cre2_new (suc fuel) size line s out =
    stuck_loop cre2_new fuel size line s (push_line cre2_new line out)

-- A file that starts with a newline is never read: the loop runs on however much fuel it has.
pub re_policy_load_loops :
    (cre2_new : Bytes → Compiled) (setup : Setup) (fuel : ℕ) (garbage : Bytes) (s : Bytes)
    → is_ready setup ≡ true
    → re_policy_load cre2_new setup fuel garbage (newline ∷ s) ≡ looping
unfolding re_policy_load
re_policy_load_loops cre2_new setup fuel garbage s ready =
    rw ready (stuck_loop cre2_new fuel (length (newline ∷ s)) garbage s [])

-- ===== src/Regex/Load.antt =====
-- apptpl/re_policy.c, `re_policy_load`: the loop over `fscanf(fp, "%[^\n] ", line)`.
-- The file is the list of its bytes, and `sb.st_size` their number. The loop runs on fuel.
pub mod Lines
pub mod Total
pub mod Outcome
use capptpl.Base.{
  Bool, Bytes, List, [], c_str, false, if◌then◌else◌, leb, length, suc, true, zero, ℕ, ◌&&◌, ◌++◌,
  ◌==◌, ◌∷◌,
}
use capptpl.Base.Chars.{skip_spaces}

abbrev pub newline : ℕ
newline = 10

-- The bytes before the first newline, and the rest from it on.
unfoldable pub take_line : Bytes → Bytes × Bytes
take_line [] = ([], [])
take_line (c ∷ s) =
    let (line, rest) = take_line s in if c == newline then ([], c ∷ s) else (c ∷ line, rest)

-- A call of `fscanf` with that format: `EOF`, 0 with nothing read, or 1 with the line and what
-- is left behind the white space that follows it.
pub data Scan : Type 0 where
  end_of_file : Scan
  no_match : Scan
  got : Bytes → Bytes → Scan

abbrev got_line : Bytes × Bytes → Scan
got_line ([], rest) = no_match
got_line (c ∷ line, rest) = got (c ∷ line) (skip_spaces rest)

unfoldable pub scan : Bytes → Scan
unfolding take_line
scan [] = end_of_file
scan (c ∷ s) = got_line (take_line (c ∷ s))

-- What `cre2_new` makes of a line.
pub data Compiled : Type 0 where
  no_memory : Compiled
  bad_pattern : Compiled
  good_pattern : Compiled

abbrev pub is_good : Compiled → Bool
is_good good_pattern = true
is_good _ = false

-- What the calls before the loop answer: `stat`, `fopen`, `malloc` and `mk_cre2_opt`.
pub record Setup : Type 0 where
  pub stat_ok : Bool
  pub fopen_ok : Bool
  pub malloc_ok : Bool
  pub opt_ok : Bool

abbrev pub is_ready : Setup → Bool
is_ready setup = setup.stat_ok && setup.fopen_ok && setup.malloc_ok && setup.opt_ok

-- NULL; the lines; a write past the end of `line`; or the fuel ran out in the loop.
pub data Loaded : Type 0 where
  failed : Loaded
  lines : List Bytes → Loaded
  overflow : Loaded
  looping : Loaded

module _ (cre2_new : Bytes → Compiled) where
  -- `utarray_push_back` copies the C string in `line` if it is a good pattern.
  unfoldable pub push_line : Bytes → List Bytes → List Bytes
  push_line line out = if is_good (cre2_new (c_str line)) then out ++ c_str line ∷ [] else out

  -- The loop; `size` is the size of `line`, `line` what it holds. `feof` is true once a read has
  -- met the end of the file, which is when nothing is left behind a line.
  unfoldable pub load_loop : ℕ → ℕ → Bytes → Bytes → List Bytes → Loaded
  unfolding scan push_line
  load_loop zero size line input out = looping
  load_loop (suc fuel) size line input out = elim (scan input) [
    | end_of_file ↦ lines out
    | no_match ↦ load_loop fuel size line input (push_line line out)
    | got read rest ↦ elim (leb size (length read)) [
      | true ↦ overflow
      | false ↦ elim rest [
        | [] ↦ lines (push_line read out)
        | c ∷ s ↦ load_loop fuel size read (c ∷ s) (push_line read out)
      ]
    ]
  ]

  -- `garbage` is what the memory of `line` holds at first.
  unfoldable pub re_policy_load : Setup → ℕ → Bytes → Bytes → Loaded
  unfolding load_loop
  re_policy_load setup fuel garbage file =
      let loop = load_loop fuel (length file) garbage file [] in
      if is_ready setup then loop else failed

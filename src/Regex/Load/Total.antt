-- ===== src/Regex/Load/Total.antt =====
-- The loop of `re_policy_load`: what it returns, when it writes past its buffer, and when it
-- never ends.
use mathlib.Core.Path.{subst}
use capptpl.Base.{
  Bool-cases, Bytes, List, [], ap, append-nil, append_assoc, arith, c_str, false, if◌then◌else◌,
  inl, inr, leb, length, refl, suc, sym, zero, ℕ, ◌++◌, ◌+◌, ◌<◌, ◌==◌, ◌∙◌, ◌∷◌, ◌≡◌, ◌≤◌,
}
use capptpl.Base.Chars.{is_space, skip_spaces}
use capptpl.Regex.Load.{
  Compiled, got, is_good, lines, load_loop, newline, push_line, scan, take_line,
}
use capptpl.Regex.Load.Lines.{not_newline, trimmed, trimmed-nil, trimmed-skip_spaces, trimmed_line}

-- Where the loop stands after a line: at a byte that is no white space.
StartsClean : Bytes → Type 0
StartsClean [] = Unit
StartsClean (c ∷ s) = is_space c ≡ false

skip_spaces-StartsClean : (s : Bytes) → StartsClean (skip_spaces s)
unfolding skip_spaces StartsClean
skip_spaces-StartsClean [] = tt
skip_spaces-StartsClean (c ∷ s) = elim (Bool-cases (is_space c)) [
  | inl h ↦ rw h (skip_spaces-StartsClean s)
  | inr h ↦ rw h h
]

skip_spaces-length : (s : Bytes) → length (skip_spaces s) ≤ length s
unfolding skip_spaces
skip_spaces-length [] = omega arith
skip_spaces-length (c ∷ s) = ground (arith, skip_spaces-length s)

-- The line and the rest are as long as the text.
pub take_line-length : (s : Bytes) → length (take_line s).0 + length (take_line s).1 ≡ length s
unfolding take_line
take_line-length [] = omega arith
take_line-length (c ∷ s) = ground (arith, take_line-length s)

clean_head : (c : ℕ) (s : Bytes) → StartsClean (c ∷ s) → is_space c ≡ false
unfolding StartsClean
clean_head c s h = h

-- A line is read where the text does not start with a newline, and is not empty.
pub scan_line :
    (c : ℕ) (s : Bytes)
    → (c == newline) ≡ false
    → scan (c ∷ s) ≡ got (take_line (c ∷ s)).0 (skip_spaces (take_line (c ∷ s)).1)
unfolding scan take_line
scan_line c s n = rw n

pub take_line-pos : (c : ℕ) (s : Bytes) → (c == newline) ≡ false → 0 < length (take_line (c ∷ s)).0
unfolding take_line
take_line-pos c s n = rw n (omega arith)

module _ (cre2_new : Bytes → Compiled) where
  -- The good patterns among the lines, in their order.
  unfoldable pub good_lines : List Bytes → List Bytes
  good_lines [] = []
  good_lines (l ∷ ls) =
      if is_good (cre2_new (c_str l)) then c_str l ∷ good_lines ls else good_lines ls

  push_line-good_lines :
      (l : Bytes) (ls out : List Bytes)
      → push_line cre2_new l out ++ good_lines ls ≡ out ++ good_lines (l ∷ ls)
  unfolding push_line good_lines
  push_line-good_lines l ls out = elim (Bool-cases (is_good (cre2_new (c_str l)))) [
    | inl h ↦ rw h (simp append_assoc)
    | inr h ↦ rw h
  ]

  -- One round at a line that fits.
  load_step :
      (fuel size : ℕ) (line input read : Bytes) (d : ℕ) (rest : Bytes) (out : List Bytes)
      → scan input ≡ got read (d ∷ rest)
      → leb size (length read) ≡ false
      → load_loop cre2_new (suc fuel) size line input out
        ≡ load_loop cre2_new fuel size read (d ∷ rest) (push_line cre2_new read out)
  unfolding load_loop
  load_step fuel size line input read d rest out e l = rw (e, load_loop) (rw l)

  load_last :
      (fuel size : ℕ) (line input read : Bytes) (out : List Bytes)
      → scan input ≡ got read []
      → leb size (length read) ≡ false
      → load_loop cre2_new (suc fuel) size line input out ≡ lines (push_line cre2_new read out)
  unfolding load_loop
  load_last fuel size line input read out e l = rw (e, load_loop) (rw l)

  -- What the last line, and any other, add to the result.
  last_line :
      (read : Bytes) (out : List Bytes) (rest : Bytes)
      → skip_spaces rest ≡ []
      → push_line cre2_new read out ≡ out ++ good_lines (read ∷ trimmed rest)
  unfolding good_lines
  last_line read out rest e =
      let t : trimmed rest ≡ [] =
        sym (trimmed-skip_spaces rest) ∙ ap (λ x. trimmed x) e ∙ trimmed-nil in
      sym (append-nil (push_line cre2_new read out))
      ∙ push_line-good_lines read [] out
      ∙ ap (λ ls. out ++ good_lines (read ∷ ls)) (sym t)

  next_line :
      (read : Bytes) (out : List Bytes) (rest : Bytes) (d : ℕ) (s : Bytes)
      → skip_spaces rest ≡ d ∷ s
      → push_line cre2_new read out ++ good_lines (trimmed (d ∷ s))
        ≡ out ++ good_lines (read ∷ trimmed rest)
  next_line read out rest d s e =
      push_line-good_lines read (trimmed (d ∷ s)) out
      ∙ ap (λ ls. out ++ good_lines (read ∷ ls))
          (ap (λ x. trimmed x) (sym e) ∙ trimmed-skip_spaces rest)

  -- The loop from a line on, with enough fuel and lines that fit.
  pub load_loop_lem :
      (fuel size : ℕ) (line : Bytes) (c : ℕ) (s : Bytes) (out : List Bytes)
      → (c == newline) ≡ false
      → length (take_line (c ∷ s)).0 < size
      → length (take_line (c ∷ s)).1 < size
      → length (c ∷ s) ≤ fuel
      → load_loop cre2_new fuel size line (c ∷ s) out
        ≡ lines (out ++ good_lines ((take_line (c ∷ s)).0 ∷ trimmed (take_line (c ∷ s)).1))
  load_loop_lem zero size line c s out n l r f = absurd (omega arith)
  load_loop_lem (suc fuel) size line c s out n l r f =
      go (skip_spaces (take_line (c ∷ s)).1) refl (load_loop_lem fuel size (take_line (c ∷ s)).0)
    where
      read : Bytes
      read = (take_line (c ∷ s)).0

      rest : Bytes
      rest = (take_line (c ∷ s)).1

      go :
          (left : Bytes)
          → skip_spaces rest ≡ left
          → ((d : ℕ) (t : Bytes) (o : List Bytes)
              → (d == newline) ≡ false
              → length (take_line (d ∷ t)).0 < size
              → length (take_line (d ∷ t)).1 < size
              → length (d ∷ t) ≤ fuel
              → load_loop cre2_new fuel size read (d ∷ t) o
                ≡ lines (o ++ good_lines ((take_line (d ∷ t)).0 ∷ trimmed (take_line (d ∷ t)).1)))
          → load_loop cre2_new (suc fuel) size line (c ∷ s) out
            ≡ lines (out ++ good_lines (read ∷ trimmed rest))
      go [] e ih =
          load_last fuel size line (c ∷ s) read out (scan_line c s n ∙ ap (got read) e)
            (ground arith)
          ∙ ap lines (last_line read out rest e)
      go (d ∷ t) e ih =
          let clean : StartsClean (d ∷ t) = subst StartsClean e (skip_spaces-StartsClean rest) in
          let total = take_line-length (c ∷ s) in
          let part = take_line-length (d ∷ t) in
          let pos = take_line-pos c s n in
          let small : length (d ∷ t) ≤ length rest =
            subst (λ x. length x ≤ length rest) e (skip_spaces-length rest) in
          load_step fuel size line (c ∷ s) read d t out (scan_line c s n ∙ ap (got read) e)
            (ground arith)
          ∙ ih d t (push_line cre2_new read out) (not_newline d (clean_head d t clean))
              (omega arith) (omega arith) (omega arith)
          ∙ ap (λ ls. lines (push_line cre2_new read out ++ good_lines ls))
              (sym (trimmed_line d t (clean_head d t clean)))
          ∙ ap lines (next_line read out rest d t e)

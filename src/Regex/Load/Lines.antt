-- ===== src/Regex/Load/Lines.antt =====
-- The lines of a file, by an independent description: the text is cut at every newline, white
-- space at the start of a line is dropped except in the first one, and so are the lines that
-- then are empty.
use mathlib.Core.Path.{ap₂}
use capptpl.Base.{
  Bool-cases, Bytes, List, [], arith, false, if◌then◌else◌, inl, inr, refl, sym, true, ℕ, ◌==◌, ◌∙◌,
  ◌∷◌, ◌≡◌,
}
use capptpl.Base.Chars.{is_space, skip_spaces}
use capptpl.Regex.Load.{newline, take_line}

-- The text up to the first newline, and the lines behind it.
pub cut : Bytes → Bytes × List Bytes
cut [] = ([], [])
cut (c ∷ s) =
    let (line, more) = cut s in if c == newline then ([], line ∷ more) else (c ∷ line, more)

abbrev cons_line : Bytes → List Bytes → List Bytes
cons_line [] ls = ls
cons_line (c ∷ l) ls = (c ∷ l) ∷ ls

pub trim : List Bytes → List Bytes
trim [] = []
trim (l ∷ ls) = cons_line (skip_spaces l) (trim ls)

-- The lines of a text whose first line is trimmed too.
abbrev pub trimmed : Bytes → List Bytes
trimmed s = trim ((cut s).0 ∷ (cut s).1)

-- The lines of a file.
unfoldable pub file_lines : Bytes → List Bytes
unfolding cut trim
file_lines [] = []
file_lines (c ∷ s) = (cut (c ∷ s)).0 ∷ trim (cut (c ∷ s)).1

cut-take_line :
    (s : Bytes) → ((cut s).0 ≡ (take_line s).0) × (trim (cut s).1 ≡ trimmed (take_line s).1)
unfolding cut take_line trim skip_spaces
cut-take_line [] = (refl, refl)
cut-take_line (c ∷ s) = elim (Bool-cases (c == newline)) [
  | inl h ↦ (rw h, rw h (rw h))
  | inr h ↦ let (p, q) = cut-take_line s in (rw h (rw p), rw h q)
]

trimmed_space : (c : ℕ) (s : Bytes) → is_space c ≡ true → trimmed (c ∷ s) ≡ trimmed s
unfolding cut trim skip_spaces
trimmed_space c s h = elim (Bool-cases (c == newline)) [ inl n ↦ rw n | inr n ↦ rw n (rw h) ]

-- White space at the start makes no difference to the trimmed lines.
pub trimmed-skip_spaces : (s : Bytes) → trimmed (skip_spaces s) ≡ trimmed s
unfolding skip_spaces
trimmed-skip_spaces [] = refl
trimmed-skip_spaces (c ∷ s) = elim (Bool-cases (is_space c)) [
  | inl h ↦ rw h (trimmed-skip_spaces s ∙ sym (trimmed_space c s h))
  | inr h ↦ rw h
]

pub not_newline : (c : ℕ) → is_space c ≡ false → (c == newline) ≡ false
unfolding is_space
not_newline c h = ground arith

-- A line that does not start with white space is the first of the trimmed lines.
pub trimmed_line :
    (c : ℕ) (s : Bytes)
    → is_space c ≡ false
    → trimmed (c ∷ s) ≡ (take_line (c ∷ s)).0 ∷ trimmed (take_line (c ∷ s)).1
unfolding cut take_line trim skip_spaces
trimmed_line c s h =
    let n = not_newline c h in
    let (p, q) = cut-take_line s in rw n (rw h (ap₂ (λ l ls. (c ∷ l) ∷ ls) p q))

pub file_lines-take_line :
    (c : ℕ) (s : Bytes) → file_lines (c ∷ s) ≡ (take_line (c ∷ s)).0 ∷ trimmed (take_line (c ∷ s)).1
unfolding file_lines
file_lines-take_line c s = ap₂ ◌∷◌ (cut-take_line (c ∷ s)).0 (cut-take_line (c ∷ s)).1

pub trimmed-nil : trimmed [] ≡ []
unfolding cut trim skip_spaces
trimmed-nil = refl

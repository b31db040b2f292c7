-- ===== src/ProcStat/Fields.antt =====
-- The place that `jump2utime` finds.
use mathlib.Core.Path.{subst}
use capptpl.Base.{
  All, Bool-cases, Bytes, Lacks, List, Option, [], ap, arith, c_str_lem, false, if◌then◌else◌, inl,
  inr, length, none, refl, some, suc, sym, true, zero, ℕ, ◌%◌, ◌++◌, ◌+◌, ◌-◌, ◌<◌, ◌==◌, ◌^◌, ◌∙◌,
  ◌∷◌, ◌≡◌, ◌≢◌, ◌≤◌,
}
use capptpl.ProcStat.{Times, decoded, jump2utime, jump_loop, proc_stat_decode}

-- What stands behind the first closing parenthesis.
pub after_name : Bytes → Option Bytes
after_name [] = none
after_name (c ∷ s) = if c == b')' then some s else after_name s

-- What stands behind so many spaces.
pub after_spaces : ℕ → Bytes → Option Bytes
after_spaces zero s = some s
after_spaces (suc n) [] = none
after_spaces (suc n) (c ∷ s) = if c == b' ' then after_spaces n s else after_spaces (suc n) s

pub field : ℕ → Bytes → Option Bytes
field n s = elim (after_name s) [ none ↦ none | some t ↦ after_spaces (n - 2) t ]

-- The loop behind the name: the count is at least 1, and so many spaces more lead to the place.
spaces_lem :
    (n count pos : ℕ) (s : Bytes)
    → 1 ≤ count
    → pos ≡ count + n + 2
    → pos + length s < 2 ^ 32
    → jump_loop pos count s ≡ after_spaces (suc n) s
unfolding jump_loop after_spaces
spaces_lem n count pos [] g e h = refl
spaces_lem zero count pos (c ∷ s) g e h =
    let here : (count + 1) % 2 ^ 32 ≡ count + 1 = omega arith in
    let there : (count + 1 + 1) % 2 ^ 32 ≡ pos = omega arith in
    ground (arith, g, here, there, spaces_lem zero count pos s g e (omega arith))
spaces_lem (suc n) count pos (c ∷ s) g e h =
    let here : (count + 1) % 2 ^ 32 ≡ count + 1 = omega arith in
    let there : (count + 1 + 1) % 2 ^ 32 ≢ pos = omega arith in
    let later : jump_loop pos (count + 1) s ≡ after_spaces (suc n) s =
      spaces_lem n (count + 1) pos s (omega arith) (omega arith) (omega arith) in
    ground (arith, g, here, there, later, spaces_lem (suc n) count pos s g e (omega arith))

jump_here : (n c : ℕ) (s : Bytes) → (c == b')') ≡ true → jump_loop n 0 (c ∷ s) ≡ jump_loop n 1 s
unfolding jump_loop
jump_here n c s e = rw e

field_later : (n c : ℕ) (s : Bytes) → (c == b')') ≡ false → field n (c ∷ s) ≡ field n s
unfolding field after_name
field_later n c s e = rw (e, field)

field_here : (n c : ℕ) (s : Bytes) → (c == b')') ≡ true → field n (c ∷ s) ≡ after_spaces (n - 2) s
unfolding field after_name
field_here n c s e = rw (e, field)

-- The loop from the start.
name_lem : (n : ℕ) (s : Bytes) → n + 2 + length s < 2 ^ 32 → jump_loop (n + 3) 0 s ≡ field (n + 3) s
unfolding jump_loop field after_name
name_lem n [] h = refl
name_lem n (c ∷ s) h =
    let here : jump_loop (n + 3) 1 s ≡ after_spaces (suc n) s =
      spaces_lem n 1 (n + 3) s (omega arith) (omega arith) (omega arith) in
    let same : suc n ≡ n + 3 - 2 = omega arith in
    elim (Bool-cases (c == b')')) [
      | inl e ↦
          jump_here (n + 3) c s e
          ∙ here
          ∙ ap (λ k. after_spaces k s) same
          ∙ sym (field_here (n + 3) c s e)
      | inr e ↦ rw e (name_lem n s (omega arith) ∙ sym (field_later (n + 3) c s e))
    ]

-- For every text and every place of 3 or more whose sum with its length stays below 2 ^ 32, as
-- `unsigned int` needs it: `jump2utime` gives what stands
-- behind as many spaces as the place less two, counted from the first closing parenthesis on, and
-- NULL exactly if there are too few of them or no parenthesis.
pub jump2utime-field :
    (buf : Bytes) (n : ℕ)
    → Lacks 0 buf
    → n + 2 + length buf < 2 ^ 32
    → jump2utime buf (n + 3) ≡ field (n + 3) buf
unfolding jump2utime
jump2utime-field buf n z h = rw (c_str_lem buf z) (name_lem n buf h)

-- The fields of the line behind the name of the program, each after one space.
abbrev pub fields_text : List Bytes → Bytes
fields_text [] = []
fields_text (f ∷ fs) = b' ' ∷ (f ++ fields_text fs)

after_name_lem :
    (name rest : Bytes) → Lacks b')' name → after_name (name ++ b')' ∷ rest) ≡ some rest
unfolding after_name
after_name_lem [] rest h = refl
after_name_lem (c ∷ name) rest h = ground (arith, after_name_lem name rest)

in_field :
    (n : ℕ) (f rest : Bytes)
    → Lacks b' ' f
    → after_spaces (suc n) (f ++ rest) ≡ after_spaces (suc n) rest
unfolding after_spaces
in_field n [] rest h = refl
in_field n (c ∷ f) rest h = ground (arith, in_field n f rest)

after_fields :
    (before : List Bytes) (f : Bytes) (after : List Bytes)
    → All (Lacks b' ') before
    → after_spaces (suc (length before)) (fields_text (before ++ f ∷ after))
      ≡ some (f ++ fields_text after)
unfolding after_spaces
after_fields [] f after h = refl
after_fields (g ∷ before) f after h =
    in_field (length before) g _ h.0 ∙ after_fields before f after h.1

field_behind :
    (n : ℕ) (name rest : Bytes)
    → Lacks b')' name
    → field n (name ++ b')' ∷ rest) ≡ after_spaces (n - 2) rest
unfolding field
field_behind n name rest h = rw (after_name_lem name rest h, field)

decode_at :
    (scan : Bytes → Option (List ℕ)) (t : Times) (line p : Bytes)
    → jump2utime line 14 ≡ some p
    → proc_stat_decode scan t line ≡ decoded t (scan p)
unfolding proc_stat_decode decoded
decode_at scan t line p e = rw (e, proc_stat_decode)

-- For a line with 11 fields between the name of the program and some field `f`, where the name has
-- no closing parenthesis and the fields no space: the numbers that `sscanf` reads from `f` on are
-- the times, each in the low half of its `unsigned long`; where it reads none the times are kept
-- and the result is -1. `f` is the 14th field of the line, its `utime`.
pub proc_stat_decode_lem :
    (scan : Bytes → Option (List ℕ)) (t : Times) (name : Bytes) (before : List Bytes) (f : Bytes)
    (after : List Bytes)
    → Lacks b')' name
    → All (Lacks b' ') before
    → length before ≡ 11
    → Lacks 0 (name ++ b')' ∷ fields_text (before ++ f ∷ after))
    → length (name ++ b')' ∷ fields_text (before ++ f ∷ after)) < 1024
    → proc_stat_decode scan t (name ++ b')' ∷ fields_text (before ++ f ∷ after))
      ≡ decoded t (scan (f ++ fields_text after))
unfolding proc_stat_decode field
proc_stat_decode_lem scan t name before f after h k e z l =
    let line = name ++ b')' ∷ fields_text (before ++ f ∷ after) in
    let place : after_spaces 12 (fields_text (before ++ f ∷ after))
        ≡ some (f ++ fields_text after) =
      subst
        (λ n.
          after_spaces (suc n) (fields_text (before ++ f ∷ after)) ≡ some (f ++ fields_text after))
        e (after_fields before f after k) in
    let found : jump2utime line 14 ≡ some (f ++ fields_text after) =
      jump2utime-field line 11 z (omega arith)
      ∙ field_behind 14 name (fields_text (before ++ f ∷ after)) h
      ∙ place in
    decode_at scan t line (f ++ fields_text after) found

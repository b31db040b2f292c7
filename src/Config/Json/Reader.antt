-- ===== src/Config/Json/Reader.antt =====
-- A reader of texts like those of `config2json`: labels, each before a quoted text or a number.
use mathlib.Core.Option
use capptpl.Base.{
  Bytes, List, Option, [], append_assoc, arith, false, if◌then◌else◌, none, refl, some, ◌++◌, ◌==◌,
  ◌∷◌, ◌≡◌,
}
use capptpl.Base.Chars.{decimal_ℤ, is_digit}
use capptpl.Base.Chars.Reader.{IsEnd, read_int, read_int-decimal_ℤ}
use capptpl.Base.Int.{ℤ}
use capptpl.Config.Json.Escape.{escape, read_quoted, read_quoted-escape}

pub data Value : Type 0 where
  text : Bytes → Value
  number : ℤ → Value

pub data Kind : Type 0 where
  text_kind number_kind : Kind

abbrev pub kind_of : Value → Kind
kind_of (text s) = text_kind
kind_of (number x) = number_kind

-- What follows the label.
pub read_label : Bytes → Bytes → Option Bytes
read_label [] s = some s
read_label (l ∷ label) [] = none
read_label (l ∷ label) (c ∷ s) = let rest = read_label label s in if l == c then rest else none

pub read_value : Kind → Bytes → Option (Value × Bytes)
read_value text_kind [] = none
read_value text_kind (c ∷ s) =
    if c == b'"'
    then Option.map (λ (r : Bytes × Bytes). (text r.0, r.1)) (read_quoted false s)
    else none
read_value number_kind s = some (number (read_int s).0, (read_int s).1)

-- The values behind the labels, and what follows the last one.
pub read_fields : List (Bytes × Kind) → Bytes → Option (List Value × Bytes)
unfolding read_label read_value
read_fields [] s = some ([], s)
read_fields ((label, kind) ∷ fields) s = elim (read_label label s) [
  | none ↦ none
  | some t ↦ elim (read_value kind t) [
    | none ↦ none
    | some (v, u) ↦ Option.map (λ (r : List Value × Bytes). (v ∷ r.0, r.1)) (read_fields fields u)
  ]
]

abbrev pub show_value : Value → Bytes
show_value (text s) = b'"' ∷ (escape s ++ b'"' ∷ [])
show_value (number x) = decimal_ℤ x

abbrev pub show_fields : List (Bytes × Value) → Bytes → Bytes
show_fields [] last = last
show_fields ((label, v) ∷ fields) last = label ++ (show_value v ++ show_fields fields last)

abbrev pub kinds : List (Bytes × Value) → List (Bytes × Kind)
kinds [] = []
kinds ((label, v) ∷ fields) = (label, kind_of v) ∷ kinds fields

abbrev pub values : List (Bytes × Value) → List Value
values [] = []
values ((label, v) ∷ fields) = v ∷ values fields

-- No label begins with a digit or is empty.
abbrev pub IsLabel : Bytes → Type 0
IsLabel [] = ⊥
IsLabel (c ∷ s) = is_digit c ≡ false

abbrev pub AreLabels : List (Bytes × Value) → Type 0
AreLabels [] = Unit
AreLabels ((label, v) ∷ fields) = IsLabel label × AreLabels fields

read_label-append : (label s : Bytes) → read_label label (label ++ s) ≡ some s
unfolding read_label
read_label-append [] s = refl
read_label-append (l ∷ label) s = ground (arith, read_label-append label s)

IsLabel-IsEnd : (label s : Bytes) → IsLabel label → IsEnd (label ++ s)
IsLabel-IsEnd [] s h = elim h [ ]
IsLabel-IsEnd (c ∷ label) s h = h

show_fields-IsEnd :
    (fields : List (Bytes × Value)) (last : Bytes)
    → AreLabels fields
    → IsEnd last
    → IsEnd (show_fields fields last)
show_fields-IsEnd [] last h e = e
show_fields-IsEnd ((label, v) ∷ fields) last (h, hs) e = IsLabel-IsEnd label _ h

read_value-show_value :
    (v : Value) (rest : Bytes)
    → IsEnd rest
    → read_value (kind_of v) (show_value v ++ rest) ≡ some (v, rest)
unfolding read_value
read_value-show_value (text s) rest h = rw (append_assoc {0}) (rw (read_quoted-escape s rest) refl)
read_value-show_value (number x) rest h = simp (read_int-decimal_ℤ x rest h)

-- The reader gets every value back.
pub read_fields-show_fields :
    (fields : List (Bytes × Value)) (last : Bytes)
    → AreLabels fields
    → IsEnd last
    → read_fields (kinds fields) (show_fields fields last) ≡ some (values fields, last)
unfolding read_fields
read_fields-show_fields [] last h e = refl
read_fields-show_fields ((label, v) ∷ fields) last (h, hs) e =
    let rest = show_fields fields last in
    rw (read_label-append label (show_value v ++ rest), read_fields)
      (rw (read_value-show_value v rest (show_fields-IsEnd fields last hs e), read_fields)
        (rw (read_fields-show_fields fields last hs e, Option.map) refl))

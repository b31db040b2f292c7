-- ===== src/Hex/Encode.antt =====
-- `bin2hex` reads its table within bounds, or not.
use capptpl.Base.{
  Bool, Option, arith, false, if◌then◌else◌, none, refl, some, suc, true, zero, ℕ, ◌<◌, ◌==◌, ◌≡◌,
  ◌≤◌,
}
use capptpl.Hex.{char_value, decode_pair, digit_at, encode_byte, hexchr2bin, shift_right}

-- A test passes on every number under a bound.
unfoldable pub every_under : (ℕ → Bool) → ℕ → Bool
every_under test zero = true
every_under test (suc k) = if test k then every_under test k else false

pub every_under_apply :
    (test : ℕ → Bool) (k b : ℕ) → b < k → every_under test k ≡ true → test b ≡ true
unfolding every_under
every_under_apply test zero b h t = absurd (omega arith)
every_under_apply test (suc k) b h t = ground (arith, every_under_apply test k b)

-- The values that a byte may have for `bin2hex` to stay in its table.
abbrev pub IsEncodable : Bool → ℕ → Type 0
IsEncodable signed b = b < (if signed then 128 else 256)

-- Both digits of a byte are read back as the byte.
restores : Bool → ℕ → Bool
restores signed b = elim (encode_byte signed b) [
  | none ↦ false
  | some (hi, lo) ↦ elim (decode_pair hi lo) [ none ↦ false | some v ↦ v == b ]
]

restores_signed : every_under (restores true) 128 ≡ true
unfolding every_under restores encode_byte char_value shift_right digit_at decode_pair hexchr2bin
restores_signed = refl

restores_unsigned : every_under (restores false) 256 ≡ true
unfolding every_under restores encode_byte char_value shift_right digit_at decode_pair hexchr2bin
restores_unsigned = refl

restores_lem : (signed : Bool) (b : ℕ) → IsEncodable signed b → restores signed b ≡ true
restores_lem true b h = every_under_apply (restores true) 128 b h restores_signed
restores_lem false b h = every_under_apply (restores false) 256 b h restores_unsigned

restores-none : (signed : Bool) (b : ℕ) → encode_byte signed b ≡ none → restores signed b ≡ false
unfolding restores
restores-none signed b e = rw (e, restores)

decoded_of_restores :
    (signed : Bool) (b : ℕ) (p : ℕ × ℕ)
    → encode_byte signed b ≡ some p
    → restores signed b ≡ true
    → decode_pair p.0 p.1 ≡ some b
unfolding restores
decoded_of_restores signed b (hi, lo) e r = ground arith

pub encode_byte_lem :
    (signed : Bool) (b : ℕ)
    → IsEncodable signed b
    → (p : ℕ × ℕ) × (encode_byte signed b ≡ some p) × (decode_pair p.0 p.1 ≡ some b)
encode_byte_lem signed b h = go (encode_byte signed b) refl
  where
    go :
        (o : Option (ℕ × ℕ))
        → encode_byte signed b ≡ o
        → (p : ℕ × ℕ) × (encode_byte signed b ≡ some p) × (decode_pair p.0 p.1 ≡ some b)
    go none e = cc (restores-none signed b e, restores_lem signed b h)
    go (some p) e = (p, e, decoded_of_restores signed b p e (restores_lem signed b h))

-- A byte of a signed `char` from 128 on is a read in front of the table.
pub encode_byte_negative : (b : ℕ) → 128 ≤ b → encode_byte true b ≡ none
unfolding encode_byte char_value shift_right digit_at
encode_byte_negative b h = ground arith

-- ===== src/Hex.antt =====
-- lib/hex.c: `bin2hex`, `hexchr2bin` and `hex2bin`.
-- A `char` is the number of its byte. Whether `char` is signed is the compiler's choice, so
-- `bin2hex` takes it as an argument; a read outside the table of digits is the fault `none`.
-- A result lists the bytes written from the start of `out`; `out` is never NULL in the callers.
pub mod Dump
pub mod Encode
pub mod Decode
use Prim.Native.Nat.{bit_or}
use capptpl.Base.{
  Bool, Bytes, Option, [], codes, false, get_elem?, if◌then◌else◌, leb, length, none, replicate,
  some, true, ℕ, ◌%◌, ◌&&◌, ◌*◌, ◌+◌, ◌-◌, ◌/◌, ◌==◌, ◌^◌, ◌∷◌,
}
use capptpl.Base.Int.{negsuc, pos, ℤ}

-- The value that a byte has as a `char`, after the integer promotions.
unfoldable pub char_value : Bool → ℕ → ℤ
char_value signed b = if signed && leb 128 b then negsuc (255 - b) else pos b

-- `x >> k` on an `int`: -(n + 1) >> k is -(n / 2 ^ k + 1).
unfoldable pub shift_right : ℤ → ℕ → ℤ
shift_right (pos n) k = pos (n / 2 ^ k)
shift_right (negsuc n) k = negsuc (n / 2 ^ k)

abbrev hex_digits : Bytes
hex_digits = codes "0123456789ABCDEF"

-- `"0123456789ABCDEF"[x]`
unfoldable pub digit_at : ℤ → Option ℕ
digit_at (pos n) = get_elem? hex_digits n
digit_at (negsuc n) = none

-- The two bytes written in one round. `bin[i] & 0x0F` is the low half of the byte at either sign.
unfoldable pub encode_byte : Bool → ℕ → Option (ℕ × ℕ)
encode_byte signed b = elim (digit_at (shift_right (char_value signed b) 4)) [
  | none ↦ none
  | some hi ↦ elim (digit_at (pos (b % 16))) [ none ↦ none | some lo ↦ some (hi, lo) ]
]

unfoldable pub bin2hex : Bool → Bytes → Option Bytes
bin2hex signed [] = some []
bin2hex signed (b ∷ bin) = elim (encode_byte signed b) [
  | none ↦ none
  | some (hi, lo) ↦ elim (bin2hex signed bin) [ none ↦ none | some out ↦ some (hi ∷ lo ∷ out) ]
]

-- The value of a digit; `none` is the result 0 of the source.
unfoldable pub hexchr2bin : ℕ → Option ℕ
hexchr2bin c =
    if leb b'0' c && leb c b'9'
    then some (c - b'0')
    else if leb b'A' c && leb c b'F'
    then some (c - b'A' + 10)
    else if leb b'a' c && leb c b'f'
    then some (c - b'a' + 10)
    else none

-- `(b1 << 4) | b2`, converted to `char`, if both are digits.
unfoldable pub decode_pair : ℕ → ℕ → Option ℕ
decode_pair a b = elim (hexchr2bin a) [
  | none ↦ none
  | some b1 ↦ elim (hexchr2bin b) [ none ↦ none | some b2 ↦ some (bit_or (b1 * 16) b2 % 256) ]
]

-- The loop over the pairs: whether it reached the end, and the bytes of `out`, which `memset`
-- has filled with 'A'.
unfoldable pub decode_loop : Bytes → Bool × Bytes
decode_loop [] = (true, [])
decode_loop (a ∷ []) = (true, [])
decode_loop (a ∷ b ∷ hex) =
    let rest = decode_loop hex in
    elim (decode_pair a b) [
      | none ↦ (false, b'A' ∷ replicate (length hex / 2) b'A')
      | some v ↦ (rest.0, v ∷ rest.1)
    ]

-- The result and the bytes written.
unfoldable pub hex2bin : Bytes → ℕ × Bytes
hex2bin hex =
    let run = decode_loop hex in
    if length hex % 2 == 0 then (if run.0 then length hex / 2 else 0, run.1) else (0, [])

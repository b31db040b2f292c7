-- ===== src/Hex/Decode.antt =====
-- `hex2bin`: what it makes of the text that `bin2hex` writes, and what it refuses.
use Prim.Native.Nat.{bit_or}
use native.Mathlib.Decide.{dec_lt}
use capptpl.Base.{
  ==_iff, All, Bool, Bool-cases, Bytes, Option-cases, [], ap, arith, false, if◌then◌else◌, inl, inr,
  leb, length, ltb, map, none, refl, some, true, ℕ, ◌%◌, ◌&&◌, ◌*◌, ◌+◌, ◌-◌, ◌/◌, ◌<◌, ◌==◌, ◌↔◌,
  ◌∷◌, ◌≡◌, ◌≢◌, ◌≤◌, ◌⊎◌,
}
use capptpl.Base.Chars.{digits}
use capptpl.Base.Int.{pos}
use capptpl.Config.Json.Report.{back}
use capptpl.Hex.{
  bin2hex, char_value, decode_loop, decode_pair, digit_at, encode_byte, hex2bin, hexchr2bin,
  shift_right,
}
use capptpl.Hex.Encode.{
  IsEncodable, encode_byte_lem, encode_byte_negative, every_under, every_under_apply,
}

decode_loop-bin2hex :
    (signed : Bool) (bin : Bytes)
    → All (IsEncodable signed) bin
    → (text : Bytes) × (bin2hex signed bin ≡ some text)
      × (decode_loop text ≡ (true, bin))
      × (length text ≡ 2 * length bin)
unfolding bin2hex decode_loop
decode_loop-bin2hex signed [] h = ([], refl, refl, refl)
decode_loop-bin2hex signed (b ∷ bin) (hb, hs) =
    let (p, e, d) = encode_byte_lem signed b hb in
    let (text, e', d', l) = decode_loop-bin2hex signed bin hs in
    (p.0 ∷ p.1 ∷ text, ground arith, ground arith, omega arith)

-- Where every byte is one that `char` does not make negative, `bin2hex` stays within its table
-- and writes twice as many bytes, and `hex2bin` reads them back as the same bytes.
pub hex2bin-bin2hex :
    (signed : Bool) (bin : Bytes)
    → All (IsEncodable signed) bin
    → (text : Bytes) × (bin2hex signed bin ≡ some text)
      × (length text ≡ 2 * length bin)
      × (hex2bin text ≡ (length bin, bin))
unfolding hex2bin
hex2bin-bin2hex signed bin h =
    let (text, e, d, l) = decode_loop-bin2hex signed bin h in (text, e, l, ground arith)

bin2hex-cases : (bin : Bytes) → All (λ b. b < 128) bin ⊎ (bin2hex true bin ≡ none)
unfolding bin2hex
bin2hex-cases [] = inl tt
bin2hex-cases (b ∷ bin) = elim (dec_lt b 128) [
  | yes h ↦ elim (bin2hex-cases bin) [ inl hs ↦ inl (h, hs) | inr e ↦ inr (ground arith) ]
  | no h ↦ inr (ground (arith, encode_byte_negative b))
]

-- With a signed `char`, `bin2hex` reads outside its table exactly if some byte is 128 or more.
pub bin2hex-eq-none_iff : (bin : Bytes) → (bin2hex true bin ≡ none) ↔ ¬ All (λ b. b < 128) bin
bin2hex-eq-none_iff bin = (
  λ e h. let (text, e', l, d) = hex2bin-bin2hex true bin h in cc,
  λ h. elim (bin2hex-cases bin) [ inl ok ↦ absurd (h ok) | inr e ↦ e ],
)

abbrev pub IsHexDigit : ℕ → Type 0
IsHexDigit c = ((b'0' ≤ c) × (c ≤ b'9')) ⊎ ((b'A' ≤ c) × (c ≤ b'F')) ⊎ ((b'a' ≤ c) × (c ≤ b'f'))

-- The capital digit.
pub capital : ℕ → ℕ
capital c = if leb b'a' c then c - 32 else c

pub hexchr2bin-some : (c v : ℕ) → hexchr2bin c ≡ some v → IsHexDigit c
unfolding hexchr2bin
hexchr2bin-some c v h = ground arith

pub hexchr2bin-none : (c : ℕ) → hexchr2bin c ≡ none → ¬ IsHexDigit c
unfolding hexchr2bin
hexchr2bin-none c h = ground arith

nibble_table : every_under (λ a. every_under (λ b. bit_or (a * 16) b == a * 16 + b) 16) 16 ≡ true
unfolding every_under
nibble_table = refl

bit_or_nibbles : (a b : ℕ) → a < 16 → b < 16 → bit_or (a * 16) b ≡ a * 16 + b
bit_or_nibbles a b ha hb = (==_iff _ _).0 (
    every_under_apply (λ y. bit_or (a * 16) y == a * 16 + y) 16 b hb
      (every_under_apply (λ x. every_under (λ y. bit_or (x * 16) y == x * 16 + y) 16) 16 a ha
        nibble_table))

-- A digit's value is below 16, and the table gives the capital digit back.
rewrites : ℕ → Bool
rewrites c = elim (hexchr2bin c) [
  | none ↦ true
  | some v ↦ ltb v 16 && elim (digit_at (pos v)) [ none ↦ false | some d ↦ d == capital c ]
]

rewrites_table : every_under rewrites 103 ≡ true
unfolding every_under rewrites hexchr2bin digit_at capital
rewrites_table = refl

rewrites_lem :
    (c v : ℕ)
    → hexchr2bin c ≡ some v
    → rewrites c ≡ true
    → (v < 16) × (digit_at (pos v) ≡ some (capital c))
unfolding rewrites
rewrites_lem c v h r = ground arith

hexchr2bin_lem :
    (c v : ℕ) → hexchr2bin c ≡ some v → (v < 16) × (digit_at (pos v) ≡ some (capital c))
hexchr2bin_lem c v h =
    go (every_under_apply rewrites 103 c (ground (arith, hexchr2bin-some c v)) rewrites_table)
  where
    go : rewrites c ≡ true → (v < 16) × (digit_at (pos v) ≡ some (capital c))
    go r = ground (arith, rewrites_lem c v h r)

encode_byte_unsigned :
    (b h l : ℕ)
    → digit_at (pos (b / 16)) ≡ some h
    → digit_at (pos (b % 16)) ≡ some l
    → encode_byte false b ≡ some (h, l)
unfolding encode_byte char_value shift_right
encode_byte_unsigned b h l p q = ground arith

encode_byte-decode_pair :
    (a b v : ℕ) → decode_pair a b ≡ some v → encode_byte false v ≡ some (capital a, capital b)
unfolding decode_pair
encode_byte-decode_pair a b v h = elim (Option-cases (hexchr2bin a)) [
  | inl e ↦ ground arith
  | inr (x, e) ↦ elim (Option-cases (hexchr2bin b)) [
    | inl e' ↦ ground arith
    | inr (y, e') ↦
        let (lx, dx) = hexchr2bin_lem a x e in
        let (ly, dy) = hexchr2bin_lem b y e' in
        let w : v ≡ x * 16 + y = ground (arith, bit_or_nibbles x y lx ly) in
        let hi : v / 16 ≡ x = omega arith in
        let lo : v % 16 ≡ y = omega arith in
        encode_byte_unsigned v (capital a) (capital b) (rw hi dx) (rw lo dy)
  ]
]

decode_pair_digits : (a b v : ℕ) → decode_pair a b ≡ some v → IsHexDigit a × IsHexDigit b
unfolding decode_pair
decode_pair_digits a b v h = elim (Option-cases (hexchr2bin a)) [
  | inl e ↦ ground arith
  | inr (x, e) ↦ elim (Option-cases (hexchr2bin b)) [
    | inl e' ↦ ground arith
    | inr (y, e') ↦ (hexchr2bin-some a x e, hexchr2bin-some b y e')
  ]
]

decode_loop_sound :
    (hex : Bytes)
    → length hex % 2 ≡ 0
    → (decode_loop hex).0 ≡ true
    → All IsHexDigit hex × (bin2hex false (decode_loop hex).1 ≡ some (map capital hex))
unfolding decode_loop bin2hex
decode_loop_sound [] l h = (tt, refl)
decode_loop_sound (a ∷ []) l h = absurd (omega arith)
decode_loop_sound (a ∷ b ∷ hex) l h = elim (Option-cases (decode_pair a b)) [
  | inl e ↦ ground arith
  | inr (v, e) ↦
      let (digits, back) = decode_loop_sound hex (omega arith) (ground arith) in
      let (da, db) = decode_pair_digits a b v e in
      ((da, (db, digits)), ground (arith, encode_byte-decode_pair a b v e))
]

hex2bin_odd : (hex : Bytes) → length hex % 2 ≢ 0 → hex2bin hex ≡ (0, [])
unfolding hex2bin
hex2bin_odd hex h = ground arith

hex2bin_failed :
    (hex : Bytes) → length hex % 2 ≡ 0 → (decode_loop hex).0 ≡ false → (hex2bin hex).0 ≡ 0
unfolding hex2bin
hex2bin_failed hex h e = ground arith

hex2bin_done :
    (hex : Bytes)
    → length hex % 2 ≡ 0
    → (decode_loop hex).0 ≡ true
    → hex2bin hex ≡ (length hex / 2, (decode_loop hex).1)
unfolding hex2bin
hex2bin_done hex h e = ground arith

decode_loop_complete : (hex : Bytes) → All IsHexDigit hex → (decode_loop hex).0 ≡ true
unfolding decode_loop decode_pair
decode_loop_complete [] h = refl
decode_loop_complete (a ∷ []) h = refl
decode_loop_complete (a ∷ b ∷ hex) (da, (db, ds)) =
    ground (arith, hexchr2bin-none a, hexchr2bin-none b, decode_loop_complete hex ds)

-- A result other than 0 means that the text has even length, is made of digits only, and is
-- twice as long as the result; the bytes written are those that the digits spell, since
-- `bin2hex` writes them back as the same digits in capitals.
pub hex2bin_sound :
    (hex : Bytes)
    → (hex2bin hex).0 ≢ 0
    → (length hex ≡ 2 * (hex2bin hex).0)
      × All IsHexDigit hex
      × (bin2hex false (hex2bin hex).1 ≡ some (map capital hex))
hex2bin_sound hex h = elim (dec_lt 0 (length hex % 2)) [
  | yes odd ↦ absurd (h (ap (λ p. p.0) (hex2bin_odd hex (omega arith))))
  | no even ↦ elim (Bool-cases (decode_loop hex).0) [
    | inl done ↦
        let (digits, back) = decode_loop_sound hex (omega arith) done in
        rw (hex2bin_done hex (omega arith) done) (omega arith, digits, back)
    | inr bad ↦ absurd (h (hex2bin_failed hex (omega arith) bad))
  ]
]

-- Every text of digits that has even length is accepted.
pub hex2bin_complete :
    (hex : Bytes) → length hex % 2 ≡ 0 → All IsHexDigit hex → 2 * (hex2bin hex).0 ≡ length hex
hex2bin_complete hex e h = rw (hex2bin_done hex e (decode_loop_complete hex h)) (omega arith)

-- A text of digits and of even length, with the bytes that it spells; or any other text.
abbrev pub Decodes : Bytes → ℕ × Bytes → Type 0
Decodes hex r =
    ((length hex % 2 ≡ 0)
      × All IsHexDigit hex
      × (2 * r.0 ≡ length hex)
      × (bin2hex false r.1 ≡ some (map capital hex)))
    ⊎ (¬ ((length hex % 2 ≡ 0) × All IsHexDigit hex) × (r.0 ≡ 0))

-- For every text: if it is made of digits only and has even length, `hex2bin` returns half its
-- length, and the bytes that it writes are those that the digits spell, since `bin2hex` writes
-- them back as the same digits in capitals; if not, it returns 0.
pub hex2bin-Decodes : (hex : Bytes) → Decodes hex (hex2bin hex)
hex2bin-Decodes hex = elim (dec_lt 0 (length hex % 2)) [
  | yes odd ↦ inr ((λ h. omega (arith, odd, h.0)), ap (λ p. p.0) (hex2bin_odd hex (omega arith)))
  | no even ↦ elim (Bool-cases (decode_loop hex).0) [
    | inl done ↦
        let (digits, back) = decode_loop_sound hex (omega arith) done in
        inl (
          omega arith,
          digits,
          rw (hex2bin_done hex (omega arith) done) (omega arith),
          rw (hex2bin_done hex (omega arith) done) back,
        )
    | inr bad ↦
        inr ((λ h. cc (bad, decode_loop_complete hex h.1)), hex2bin_failed hex (omega arith) bad)
  ]
]

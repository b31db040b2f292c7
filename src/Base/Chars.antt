-- ===== src/Base/Chars.antt =====
-- The parts of the C library that the program uses on text: `strncpy`, `strcasecmp`, `atoi` and
-- the conversion `%d`.
pub mod Reader
pub mod Decimal
pub mod Buffer
use Prim.Native.Nat.{min, suc, zero, ℕ, ◌%◌, ◌*◌, ◌+◌, ◌-◌, ◌/◌, ◌<◌, ◌^◌, ◌≤◌}
use mathlib.Core.Bool.{Bool, ◌&&◌, ◌||◌}
use mathlib.Core.List.{[], map, ◌∷◌}
use mathlib.Core.Option.{Option, none, some}
use native.Mathlib.Omega.{arith}
use capptpl.Base.Int.{neg_part, negsuc, pos, pos_part, ℤ}
use capptpl.Base.Tests.{if◌then◌else◌, leb, ltb, ◌==◌}
use capptpl.Base.Text.{Bytes, str_eq}

-- `strncpy(buf, src, n)`: a copy padded with NULs; `none` is a write past the end of `buf`.
unfoldable pub strncpy : ℕ → Bytes → Bytes → Option Bytes
strncpy zero src buf = some buf
strncpy (suc n) src [] = none
strncpy (suc n) [] (b ∷ buf) = elim (strncpy n [] buf) [ none ↦ none | some r ↦ some (0 ∷ r) ]
strncpy (suc n) (c ∷ src) (b ∷ buf) = elim (strncpy n src buf) [
  | none ↦ none
  | some r ↦ some (c ∷ r)
]

pub to_lower : ℕ → ℕ
to_lower c = if leb b'A' c && leb c b'Z' then c + 32 else c

-- `strcasecmp(s, t) == 0`
unfoldable pub str_case_eq : Bytes → Bytes → Bool
unfolding to_lower str_eq
str_case_eq s t = str_eq (map to_lower s) (map to_lower t)

-- `isspace`
unfoldable pub is_space : ℕ → Bool
is_space c = c == 32 || (leb 9 c && leb c 13)

unfoldable pub is_digit : ℕ → Bool
is_digit c = leb b'0' c && leb c b'9'

unfoldable pub skip_spaces : Bytes → Bytes
unfolding is_space
skip_spaces [] = []
skip_spaces (c ∷ s) = if is_space c then skip_spaces s else c ∷ s

-- The number spelled by the digits at the start of a text, behind the number `n`.
unfoldable pub digits_value : ℕ → Bytes → ℕ
unfolding is_digit
digits_value n [] = n
digits_value n (c ∷ s) =
    let more = digits_value (n * 10 + (c - b'0')) s in if is_digit c then more else n

negate : ℕ → ℤ
negate zero = pos 0
negate (suc n) = negsuc n

-- `strtol(s, NULL, 10)`, which saturates at the ends of a 64-bit `long`.
signed_value : Bytes → ℤ
unfolding digits_value negate
signed_value [] = pos 0
signed_value (c ∷ s) =
    if c == b'-'
    then negate (min (digits_value 0 s) (2 ^ 63))
    else if c == b'+'
    then pos (min (digits_value 0 s) (2 ^ 63 - 1))
    else pos (min (digits_value 0 (c ∷ s)) (2 ^ 63 - 1))

unfoldable pub strtol : Bytes → ℤ
unfolding signed_value skip_spaces
strtol s = signed_value (skip_spaces s)

-- A conversion to a 32-bit `int`, which wraps around.
unfoldable pub to_int : ℤ → ℤ
to_int (pos n) = let r = n % 2 ^ 32 in if ltb r (2 ^ 31) then pos r else negsuc (2 ^ 32 - 1 - r)
to_int (negsuc n) = let r = n % 2 ^ 32 in if ltb r (2 ^ 31) then negsuc r else pos (2 ^ 32 - 1 - r)

-- A conversion to `uint16_t`.
unfoldable pub to_u16 : ℤ → ℕ
to_u16 (pos n) = n % 2 ^ 16
to_u16 (negsuc n) = 2 ^ 16 - 1 - n % 2 ^ 16

-- `atoi(s)`
unfoldable pub atoi : Bytes → ℤ
unfolding strtol to_int
atoi s = to_int (strtol s)

-- The values of an `int`.
abbrev pub IsInt : ℤ → Type 0
IsInt x = (pos_part x < 2 ^ 31) × (neg_part x ≤ 2 ^ 31)

pub to_int-IsInt : (x : ℤ) → IsInt (to_int x)
unfolding to_int
to_int-IsInt (pos n) = ground arith
to_int-IsInt (negsuc n) = ground arith

pub to_u16-lt : (x : ℤ) → to_u16 x < 2 ^ 16
unfolding to_u16
to_u16-lt (pos n) = omega arith
to_u16-lt (negsuc n) = omega arith

pub atoi-IsInt : (s : Bytes) → IsInt (atoi s)
unfolding atoi
atoi-IsInt s = to_int-IsInt (strtol s)

pub digits : ℕ → ℕ → Bytes → Bytes
digits zero n out = out
digits (suc f) n out =
    let more = digits f (n / 10) ((b'0' + n % 10) ∷ out) in
    if ltb n 10 then (b'0' + n) ∷ out else more

-- `%u`; a number has fewer digits than the fuel.
unfoldable pub decimal : ℕ → Bytes
unfolding digits
decimal n = digits (suc n) n []

-- `%d`
unfoldable pub decimal_ℤ : ℤ → Bytes
unfolding decimal
decimal_ℤ (pos n) = decimal n
decimal_ℤ (negsuc n) = b'-' ∷ decimal (suc n)

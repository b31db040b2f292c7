-- ===== src/Base/Chars/Reader.antt =====
-- A reader of printed numbers.
use Prim.Native.Nat.{suc, zero, ℕ, ◌%◌, ◌*◌, ◌+◌, ◌-◌, ◌/◌, ◌<◌}
use mathlib.Core.Bool.{false}
use mathlib.Core.List.{[], ◌++◌, ◌∷◌}
use mathlib.Core.Path.{refl, ◌≡◌}
use native.Mathlib.Omega.{arith}
use mathlib.Core.Path.{ap, ◌∙◌}
use capptpl.Base.Chars.{decimal, decimal_ℤ, digits, is_digit}
use capptpl.Base.Int.{negsuc, pos, ℤ}
use capptpl.Base.Tests.{if-cases, if◌then◌else◌, ltb, ◌==◌}
use capptpl.Base.Text.{Bytes}

-- The number spelled by the digits at the start of a text, behind the number `n`, and what
-- follows it.
unfoldable pub read_digits : ℕ → Bytes → ℕ × Bytes
unfolding is_digit
read_digits n [] = (n, [])
read_digits n (c ∷ s) =
    let more = read_digits (n * 10 + (c - b'0')) s in if is_digit c then more else (n, c ∷ s)

unfoldable pub read_int : Bytes → ℤ × Bytes
unfolding read_digits
read_int [] = (pos 0, [])
read_int (c ∷ s) =
    let negative = read_digits 0 s in
    let positive = read_digits 0 (c ∷ s) in
    if c == b'-' then (negsuc (negative.0 - 1), negative.1) else (pos positive.0, positive.1)

-- No digit follows.
abbrev pub IsEnd : Bytes → Type 0
IsEnd [] = Unit
IsEnd (c ∷ s) = is_digit c ≡ false

digits-append : (f n : ℕ) (out rest : Bytes) → digits f n out ++ rest ≡ digits f n (out ++ rest)
unfolding digits
digits-append zero n out rest = refl
digits-append (suc f) n out rest =
    ground (arith, digits-append f (n / 10) ((b'0' + n % 10) ∷ out) rest)

read_digits-next :
    (n d : ℕ) (out : Bytes)
    → d < 10
    → read_digits n ((b'0' + d) ∷ out) ≡ read_digits (n * 10 + d) out
unfolding read_digits is_digit
read_digits-next n d out h = ground arith

read_digits-digits :
    (f n : ℕ) (out : Bytes) → n < f → read_digits 0 (digits f n out) ≡ read_digits n out
unfolding digits
read_digits-digits zero n out h = elim h [ ]
read_digits-digits (suc f) n out h =
    let d = n % 10 in
    if-cases (λ l. read_digits 0 l ≡ read_digits n out) (ltb n 10) _ _
      (λ e.
        read_digits-next 0 n out (ground (arith, e)) ∙ ap (λ k. read_digits k out) (ground arith))
      (λ e.
        read_digits-digits f (n / 10) ((b'0' + d) ∷ out) (ground (arith, e, h))
        ∙ read_digits-next (n / 10) d out (omega arith)
        ∙ ap (λ k. read_digits k out) (omega arith))

read_digits-IsEnd : (n : ℕ) (rest : Bytes) → IsEnd rest → read_digits n rest ≡ (n, rest)
unfolding read_digits
read_digits-IsEnd n [] h = refl
read_digits-IsEnd n (c ∷ s) h = rw h

pub read_digits-decimal :
    (n : ℕ) (rest : Bytes) → IsEnd rest → read_digits 0 (decimal n ++ rest) ≡ (n, rest)
unfolding decimal
read_digits-decimal n rest h =
    ap (read_digits 0) (digits-append (suc n) n [] rest)
    ∙ read_digits-digits (suc n) n rest (omega arith)
    ∙ read_digits-IsEnd n rest h

-- A printed number does not begin with a minus sign.
digits_head :
    (f n : ℕ) (out : Bytes)
    → n < f
    → (c : ℕ) × (s : Bytes) × (digits f n out ≡ c ∷ s) × ((c == b'-') ≡ false)
unfolding digits
digits_head zero n out h = elim h [ ]
digits_head (suc f) n out h =
    if-cases (λ l. (c : ℕ) × (s : Bytes) × (l ≡ c ∷ s) × ((c == b'-') ≡ false)) (ltb n 10) _ _
      (λ e. (b'0' + n, out, refl, ground arith))
      (λ e. digits_head f (n / 10) ((b'0' + n % 10) ∷ out) (ground (arith, e, h)))

read_int_positive :
    (s : Bytes) (c : ℕ) (t : Bytes)
    → s ≡ c ∷ t
    → (c == b'-') ≡ false
    → read_int s ≡ (pos (read_digits 0 s).0, (read_digits 0 s).1)
unfolding read_int
read_int_positive s c t e h = rw e (rw h)

-- The reader gets a printed number back, and stops behind it.
pub read_int-decimal_ℤ :
    (x : ℤ) (rest : Bytes) → IsEnd rest → read_int (decimal_ℤ x ++ rest) ≡ (x, rest)
unfolding read_int decimal_ℤ
read_int-decimal_ℤ (pos n) rest h =
    let (c, s, e, k) = digits_head (suc n) n [] (omega arith) in
    let back = read_digits-decimal n rest h in
    read_int_positive (decimal n ++ rest) c (s ++ rest) (unfold decimal in ap (λ l. l ++ rest) e) k
    ∙ ap (λ (r : ℕ × Bytes). (pos r.0, r.1)) back
read_int-decimal_ℤ (negsuc n) rest h = rw (read_digits-decimal (suc n) rest h) (ground arith)

-- ===== src/Base/Chars/Decimal.antt =====
-- The length of a printed number.
use Prim.Native.Nat.{suc, zero, ℕ, ◌%◌, ◌+◌, ◌/◌, ◌<◌, ◌^◌, ◌≤◌}
use capptpl.Base.Chars.{decimal, digits}
use capptpl.Base.Lists.{length}
use capptpl.Base.Text.{Bytes}
use mathlib.Core.List.{[], ◌∷◌}
use native.Mathlib.Nat.{pow-suc}
use native.Mathlib.Omega.{arith}

tenth : (n k : ℕ) → n < 10 ^ suc (suc k) → n / 10 < 10 ^ suc k
tenth n k l = omega (arith, pow-suc 10 (suc k), l)

digits-length :
    (f n k : ℕ) (out : Bytes)
    → n < f
    → n < 10 ^ suc k
    → length (digits f n out) ≤ suc k + length out
unfolding digits
digits-length zero n k out h l = elim h [ ]
digits-length (suc f) n zero out h l = ground arith
digits-length (suc f) n (suc k) out h l =
    ground (arith, digits-length f (n / 10) k ((b'0' + n % 10) ∷ out), tenth n k l)

-- A number below 10 ^ (k + 1) has at most k + 1 digits.
pub decimal-length : (n k : ℕ) → n < 10 ^ suc k → length (decimal n) ≤ suc k
unfolding decimal
decimal-length n k l = omega (arith, digits-length (suc n) n k [] (omega arith) l)

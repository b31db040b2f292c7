-- ===== src/Base/Chars/Buffer.antt =====
-- `strncpy` into a NUL-terminated buffer.
use Prim.Native.Nat.{suc, zero, ℕ}
use mathlib.Core.List.{[], ◌∷◌}
use mathlib.Core.Option.{some}
use mathlib.Core.Path.{ap, refl, ◌≡◌}
use native.Mathlib.Omega.{arith}
use capptpl.Base.Chars.{strncpy}
use capptpl.Base.Lists.{drop, length, replicate, take}
use capptpl.Base.Text.{Bytes, Lacks, c_str}

-- A `char[n + 1]` whose last byte is NUL.
abbrev pub IsBuffer : ℕ → Bytes → Type 0
IsBuffer n buf = drop n buf ≡ 0 ∷ []

pub drop_nil : (n : ℕ) → ¬ IsBuffer n []
drop_nil zero h = cc
drop_nil (suc n) h = cc

c_str_zero : (b : Bytes) → b ≡ 0 ∷ [] → c_str b ≡ []
unfolding c_str
c_str_zero b h = rw h

-- A copy of at most `n` bytes fits, keeps the last NUL, and the buffer then holds the first `n`
-- bytes of the text.
pub strncpy_lem :
    (n : ℕ) (src buf : Bytes)
    → IsBuffer n buf
    → (r : Bytes) × (strncpy n src buf ≡ some r)
      × IsBuffer n r
      × (Lacks 0 src → c_str r ≡ take n src)
unfolding strncpy c_str
strncpy_lem zero src buf h = (buf, refl, h, λ _. c_str_zero buf h)
strncpy_lem (suc n) src [] h = absurd (drop_nil (suc n) h)
strncpy_lem (suc n) [] (b ∷ buf) h =
    let (r, e, k, _) = strncpy_lem n [] buf h in (0 ∷ r, rw e, k, λ _. refl)
strncpy_lem (suc n) (c ∷ src) (b ∷ buf) h =
    let (r, e, k, t) = strncpy_lem n src buf h in (c ∷ r, rw e, k, λ l. ground (arith, t l.1))

pub replicate-IsBuffer : (n : ℕ) → IsBuffer n (replicate (suc n) 0)
replicate-IsBuffer zero = refl
replicate-IsBuffer (suc n) = replicate-IsBuffer n

pub length-IsBuffer : (n : ℕ) (buf : Bytes) → IsBuffer n buf → length buf ≡ suc n
length-IsBuffer zero buf h = ap length h
length-IsBuffer (suc n) [] h = absurd (drop_nil (suc n) h)
length-IsBuffer (suc n) (b ∷ buf) h = ap suc (length-IsBuffer n buf h)

-- ===== src/Base/Ledger.antt =====
-- The resources that a piece of C code holds: a state of live resources, in which a release of
-- one that is not live, or a use of one, is a fault. `tag` tells resources apart.
pub mod Numbered
use Prim.Native.Nat.{ℕ}
use mathlib.Core.Bool.{Bool, false, true, ◌||◌}
use mathlib.Core.List.{List, [], ◌∷◌}
use mathlib.Core.Option.{Option, none, some}
use mathlib.Core.Path.{◌≡◌}
use capptpl.Base.Tests.{if◌then◌else◌, ◌==◌}

-- `none` is a fault.
abbrev pub M : Type 0 → Type 0 → Type 0
M R A = List R → Option (A × List R)

abbrev pub pure : {R A : Type 0} → A → M R A
pure a live = some (a, live)

infixl 5 ◌>>=◌ ◌>>◌
abbrev pub ◌>>=◌ : {R A B : Type 0} → M R A → (A → M R B) → M R B
◌>>=◌ m f live = elim (m live) [ none ↦ none | some (a, live') ↦ f a live' ]

abbrev pub ◌>>◌ : {R B : Type 0} → M R (Unit {0}) → M R B → M R B
m >> k = m >>= λ _. k

abbrev pub acquire : {R : Type 0} → R → M R (Unit {0})
acquire r live = some (tt, r ∷ live)

module _ {R : Type 0} (tag : R → ℕ) where
  abbrev pub remove : R → List R → Option (List R)
  remove r [] = none
  remove r (x ∷ live) =
      if tag r == tag x
      then some live
      else elim (remove r live) [ none ↦ none | some l ↦ some (x ∷ l) ]

  abbrev pub release : R → M R (Unit {0})
  release r live = elim (remove r live) [ none ↦ none | some l ↦ some (tt, l) ]

  abbrev pub is_live : R → List R → Bool
  is_live r [] = false
  is_live r (x ∷ live) = tag r == tag x || is_live r live

  -- An access to a resource.
  abbrev pub touch : R → M R (Unit {0})
  touch r live = if is_live r live then some (tt, live) else none

  -- `if (p) release(p);`
  abbrev pub release_if : Bool → R → M R (Unit {0})
  release_if true r = release r
  release_if false r = pure tt

-- A first step that succeeds.
pub >>=-some :
    {R A B : Type 0} (m : M R A) (f : A → M R B) (live : List R) {a : A} {live' : List R}
    → m live ≡ some (a, live')
    → (m >>= f) live ≡ f a live'
>>=-some m f live e = rw (e, ◌>>=◌)

pub release-some :
    {R : Type 0} (tag : R → ℕ) (r : R) (live : List R) {live' : List R}
    → remove tag r live ≡ some live'
    → release tag r live ≡ some (tt, live')
release-some tag r live e = rw (e, release)

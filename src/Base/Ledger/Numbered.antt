-- ===== src/Base/Ledger/Numbered.antt =====
-- Resources of one kind that are numbered, and a loop that releases them in their order.
use Prim.Native.Nat.{suc, zero, ℕ, ◌+◌, ◌<◌}
use mathlib.Core.List.{List, [], ◌++◌, ◌∷◌}
use mathlib.Core.Option.{some}
use mathlib.Core.Path.{refl, ◌∙◌, ◌≡◌}
use native.Mathlib.Omega.{arith}
use capptpl.Base.Ledger.{>>=-some, M, is_live, pure, release, release-some, remove, touch, ◌>>◌}
use mathlib.Core.Bool.{true}

module _ {R : Type 0} (item : ℕ → R) where
  -- `n` of them from `i` on, the last acquired first.
  abbrev pub copies_of : ℕ → ℕ → List R
  copies_of i zero = []
  copies_of i (suc n) = item (i + n) ∷ copies_of i n

  -- The loop that releases them.
  abbrev pub release_all : (R → ℕ) → ℕ → ℕ → M R (Unit {0})
  release_all tag zero i = pure tt
  release_all tag (suc n) i = release tag (item i) >> release_all tag n (i + 1)

  module _ (tag : R → ℕ) (first : ℕ) (tagged : (n : ℕ) → tag (item n) ≡ first + n) where
    -- What lies under them can be released.
    pub remove-copies_of :
        (r : R) (i n : ℕ) (l l' : List R)
        → tag r < first
        → remove tag r l ≡ some l'
        → remove tag r (copies_of i n ++ l) ≡ some (copies_of i n ++ l')
    remove-copies_of r i zero l l' h e = e
    remove-copies_of r i (suc n) l l' h e =
        rw (remove-copies_of r i n l l' h e) (ground (arith, tagged (i + n)))

    remove_first :
        (i n : ℕ) (l : List R)
        → remove tag (item i) (copies_of i (suc n) ++ l) ≡ some (copies_of (i + 1) n ++ l)
    remove_first i zero l = ground (arith, tagged i, tagged (i + 0))
    remove_first i (suc n) l =
        ground (arith, tagged i, tagged (i + suc n), tagged (i + n), remove_first i n l)

    pub release_all_lem :
        (n i : ℕ) (l : List R) → release_all tag n i (copies_of i n ++ l) ≡ some (tt, l)
    release_all_lem zero i l = refl
    release_all_lem (suc n) i l =
        >>=-some (release tag (item i)) (λ _. release_all tag n (i + 1)) (copies_of i (suc n) ++ l)
          (release-some tag (item i) (copies_of i (suc n) ++ l) (remove_first i n l))
        ∙ release_all_lem n (i + 1) l

    -- A use of what lies under them.
    pub touch-copies_of :
        (r : R) (i n : ℕ) (l : List R)
        → is_live tag r l ≡ true
        → touch tag r (copies_of i n ++ l) ≡ some (tt, copies_of i n ++ l)
    touch-copies_of r i n l e = rw (live_under n)
      where
        live_under : (n : ℕ) → is_live tag r (copies_of i n ++ l) ≡ true
        live_under zero = e
        live_under (suc n) = ground (arith, live_under n)

    pub release-copies_of :
        (r : R) (i n : ℕ) (l l' : List R)
        → tag r < first
        → remove tag r l ≡ some l'
        → release tag r (copies_of i n ++ l) ≡ some (tt, copies_of i n ++ l')
    release-copies_of r i n l l' h e =
        release-some tag r (copies_of i n ++ l) (remove-copies_of r i n l l' h e)

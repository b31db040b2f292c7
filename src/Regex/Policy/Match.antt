-- ===== src/Regex/Policy/Match.antt =====
-- What `re_policy_match` reports is safe to look up in the policy's rules, as the parser does.
use capptpl.Base.{
  All, Bytes, List, [], ap, arith, get_elem?, length, refl, some, suc, zero, ℕ, ◌+◌, ◌<◌, ◌∙◌, ◌∷◌,
  ◌≡◌,
}
use capptpl.Regex.Policy.{Cre2, Policy, re_policy_match}
use capptpl.Regex.Policy.Aligned.{length-numbered, numbered}
use native.Mathlib.Nat.{zero-add}

numbered_get :
    (k : ℕ) (ps : List Bytes) (i : ℕ)
    → i < length ps
    → (q : Bytes) × (get_elem? ps i ≡ some q)
      × (get_elem? (numbered k ps) i ≡ some (record { index = k + i; pattern = q }))
unfolding numbered
numbered_get k [] i h = absurd (omega arith)
numbered_get k (p ∷ ps) zero h = (p, refl, ground arith)
numbered_get k (p ∷ ps) (suc i) h =
    let (q, e, r) = numbered_get (k + 1) ps i (omega arith) in (q, e, ground arith)

module _ (lib : Cre2) where
  open lib use {patterns, match_count, match_written, match_in_range}

  -- The rule at an index is the one that the set means by it.
  abbrev pub Finds : Policy lib → ℕ → Type 0
  Finds p i =
      (q : Bytes) × (get_elem? (patterns p.set) i ≡ some q)
      × (get_elem? p.rules i ≡ some (record { index = i; pattern = q }))

  Finds-All :
      (p : Policy lib) (is : List ℕ)
      → p.rules ≡ numbered 0 (patterns p.set)
      → All (λ i. i < length (patterns p.set)) is
      → All (Finds p) is
  Finds-All p [] e h = tt
  Finds-All p (i ∷ is) e (h, hs) =
      let (q, f, g) = numbered_get 0 (patterns p.set) i h in
      (
        (
          q,
          f,
          ap (λ rs. get_elem? rs i) e
              ∙ g
              ∙ ap (λ k. some (record { index = k; pattern = q })) (zero-add i),
        ),
        Finds-All p is e hs,
      )

  -- For a policy whose rules are those of its set, and any text: as many entries of `match` are
  -- written as the result says, and each is the index of a rule, whose pattern is the set's
  -- pattern of that index.
  pub re_policy_match_safe :
      (p : Policy lib) (text : Bytes)
      → p.rules ≡ numbered 0 (patterns p.set)
      → (length (re_policy_match lib p text).1 ≡ (re_policy_match lib p text).0)
        × All (Finds p) (re_policy_match lib p text).1
  unfolding re_policy_match
  re_policy_match_safe p text e =
      let n : length p.rules ≡ length (patterns p.set) =
        ap length e ∙ length-numbered 0 (patterns p.set) in
      (
        omega (
          arith,
          match_written p.set text (length p.rules),
          match_count p.set text (length p.rules),
        ),
        Finds-All p _ e (match_in_range p.set text (length p.rules)),
      )

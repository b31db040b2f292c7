-- ===== src/Regex/Policy/Aligned.antt =====
-- What `re_policy_create` builds: rules that agree with the set, and resources that
-- `re_policy_destroy` frees.
use mathlib.Core.Path.{ap₂}
use native.Mathlib.Nat.{zero-add}
use capptpl.Base.{
  Bytes, List, Option-cases, [], ap, arith, inl, inr, length, length-append, none, refl, some, suc,
  ℕ, ◌++◌, ◌+◌, ◌<◌, ◌∙◌, ◌∷◌, ◌≡◌,
}
use capptpl.Base.Ledger.{remove}
use capptpl.Base.Ledger.Numbered.{copies_of, release_all_lem, remove-copies_of}
use capptpl.Regex.Policy.{
  Cre2, Resource, Rule, add_rules, free_patterns, pattern_copy, rex_opt, rex_set, rules_array, tag,
}

-- The rules of a set with these patterns.
unfoldable pub numbered : ℕ → List Bytes → List Rule
numbered i [] = []
numbered i (p ∷ ps) = record { index = i; pattern = p } ∷ numbered (i + 1) ps

numbered-snoc :
    (i : ℕ) (ps : List Bytes) (p : Bytes)
    → numbered i (ps ++ p ∷ [])
      ≡ numbered i ps ++ record { index = i + length ps; pattern = p } ∷ []
unfolding numbered
numbered-snoc i [] p = ground arith
numbered-snoc i (q ∷ ps) p = ground (arith, numbered-snoc (i + 1) ps p)

pub length-numbered : (i : ℕ) (ps : List Bytes) → length (numbered i ps) ≡ length ps
unfolding numbered
length-numbered i [] = refl
length-numbered i (p ∷ ps) = ap suc (length-numbered (i + 1) ps)

-- The copies of the patterns from `i` on, `n` of them.
unfoldable pub copies : ℕ → ℕ → List Resource
copies i n = copies_of pattern_copy i n

-- What a policy with `n` rules owns.
unfoldable pub owned : ℕ → List Resource
owned n = copies 0 n ++ rex_set ∷ rex_opt ∷ rules_array ∷ []

pub remove-copies :
    (r : Resource) (i n : ℕ) (l l' : List Resource)
    → tag r < 4
    → remove tag r l ≡ some l'
    → remove tag r (copies i n ++ l) ≡ some (copies i n ++ l')
unfolding copies
remove-copies r i n l l' h e = remove-copies_of pattern_copy tag 4 (λ k. refl) r i n l l' h e

pub free_patterns_lem :
    (n i : ℕ) (l : List Resource) → free_patterns n i (copies i n ++ l) ≡ some (tt, l)
unfolding free_patterns copies
free_patterns_lem n i l = release_all_lem pattern_copy tag 4 (λ k. refl) n i l

module _ (lib : Cre2) where
  open lib use {RegexSet, patterns, set_new, set_add, set_compile, add_appends, new_is_empty}

  add_none :
      (p : Bytes) (ps : List Bytes) (rex : RegexSet) (rules : List Rule) (l : List Resource)
      → set_add rex p ≡ none
      → add_rules lib (p ∷ ps) rex rules l ≡ add_rules lib ps rex rules l
  unfolding add_rules
  add_none p ps rex rules l e = rw (e, add_rules)

  add_some :
      (p : Bytes) (ps : List Bytes) (rex rex' : RegexSet) (rules : List Rule) (l : List Resource)
      → set_add rex p ≡ some rex'
      → add_rules lib (p ∷ ps) rex rules l
        ≡ add_rules lib ps rex'
            (rules ++ record { index = length rules; pattern = p } ∷ [])
            (pattern_copy (length rules) ∷ l)
  unfolding add_rules
  add_some p ps rex rex' rules l e = rw (e, add_rules)

  added_rules :
      (p : Bytes) (rex rex' : RegexSet)
      → patterns rex' ≡ patterns rex ++ p ∷ []
      → numbered 0 (patterns rex)
          ++ record { index = length (numbered 0 (patterns rex)); pattern = p } ∷ []
        ≡ numbered 0 (patterns rex')
  added_rules p rex rex' e =
      rw e (
        rw (length-numbered 0 (patterns rex)) (rw (numbered-snoc 0 (patterns rex) p) (rw zero-add)))

  added_copy :
      (p : Bytes) (rex rex' : RegexSet) (l : List Resource)
      → patterns rex' ≡ patterns rex ++ p ∷ []
      → pattern_copy (length (numbered 0 (patterns rex))) ∷ (copies 0 (length (patterns rex)) ++ l)
        ≡ copies 0 (length (patterns rex')) ++ l
  added_copy p rex rex' l e =
      let n : length (patterns rex') ≡ suc (length (patterns rex)) =
        ap length e ∙ omega (arith, length-append {0} (patterns rex) (p ∷ [])) in
      rw n (rw (length-numbered 0 (patterns rex)) (unfold copies in rw zero-add))

  -- What the loop gives from a set and the rules that agree with it.
  abbrev pub Adds : List Bytes → RegexSet → List Resource → List Rule → List Resource → Type 0
  Adds ps rex l rules live =
      (rex' : RegexSet) × (add_rules lib ps rex rules live
        ≡ some ((rex', numbered 0 (patterns rex')), copies 0 (length (patterns rex')) ++ l))

  -- The rules are those of the set, and the copies are those of the rules.
  pub add_rules_lem :
      (ps : List Bytes) (rex : RegexSet) (l : List Resource)
      → Adds ps rex l (numbered 0 (patterns rex)) (copies 0 (length (patterns rex)) ++ l)
  add_rules_lem [] rex l = (rex, unfold add_rules in refl)
  add_rules_lem (p ∷ ps) rex l = elim (Option-cases (set_add rex p)) [
    | inl e ↦ let (r, q) = add_rules_lem ps rex l in (r, add_none p ps rex _ _ e ∙ q)
    | inr (rex', e) ↦
        let (r, q) = add_rules_lem ps rex' l in
        let grown = add_appends rex p rex' e in
        (
          r,
          add_some p ps rex rex' _ _ e
              ∙ ap₂ (λ rules live. add_rules lib ps rex' rules live) (added_rules p rex rex' grown)
                  (added_copy p rex rex' l grown)
              ∙ q,
        )
  ]

-- ===== src/Regex/Policy/Outcome.antt =====
-- How `re_policy_create` ends, and that `re_policy_destroy` undoes it.
use mathlib.Core.Path.{subst}
use capptpl.Base.{
  Bool-cases, Bytes, List, Option, Option-cases, [], ap, append-nil, arith, false, inl, inr, length,
  none, refl, some, sym, true, ℕ, ◌&&◌, ◌++◌, ◌<◌, ◌∙◌, ◌∷◌, ◌≡◌, ◌⊎◌,
}
use capptpl.Base.Ledger.{>>=-some, release, release-some, remove, ◌>>=◌}
use capptpl.Regex.Policy.{
  Answers, Cre2, Policy, Resource, add_rules, compile_rules, create_failed, fill_set, free_patterns,
  lines_array, re_policy_create, re_policy_destroy, rex_opt, rex_set, rules_array, tag,
}
use capptpl.Regex.Policy.Aligned.{
  add_rules_lem, copies, free_patterns_lem, length-numbered, numbered, owned, remove-copies,
}

abbrev all_four : List Resource
all_four = rex_set ∷ rex_opt ∷ rules_array ∷ lines_array ∷ []

module _ (lib : Cre2) where
  open lib use {RegexSet, patterns, set_new, set_error, set_compile, new_is_empty}

  release_behind :
      (r : Resource) (n : ℕ) (l l' : List Resource)
      → tag r < 4
      → remove tag r l ≡ some l'
      → release tag r (copies 0 n ++ l) ≡ some (tt, copies 0 n ++ l')
  release_behind r n l l' h e = release-some tag r (copies 0 n ++ l) (remove-copies r 0 n l l' h e)

  -- At the label `err`, behind any number of copies.
  create_failed_lem :
      (n : ℕ)
      → create_failed lib true true true true (copies 0 n ++ all_four) ≡ some (none, copies 0 n)
  unfolding create_failed
  create_failed_lem n =
      >>=-some (release tag rex_set) _ (copies 0 n ++ all_four)
        (release_behind rex_set n all_four _ (omega arith) refl)
      ∙ >>=-some (release tag rex_opt) _ (copies 0 n ++ rex_opt ∷ rules_array ∷ lines_array ∷ [])
          (release_behind rex_opt n _ _ (omega arith) refl)
      ∙ >>=-some (release tag lines_array) _ (copies 0 n ++ rules_array ∷ lines_array ∷ [])
          (release_behind lines_array n _ _ (omega arith) refl)
      ∙ >>=-some (release tag rules_array) _ (copies 0 n ++ rules_array ∷ [])
          (release_behind rules_array n _ _ (omega arith) refl)
      ∙ ap (λ l. some (none, l)) (append-nil (copies 0 n))

  -- The result of `re_policy_create` and what is allocated then.
  abbrev pub Ends : Option (Option (Policy lib) × List Resource) → Type 0
  Ends o =
      ((p : Policy lib) × (o ≡ some (some p, owned (length p.rules)))
        × (p.rules ≡ numbered 0 (patterns p.set))
        × (re_policy_destroy lib p (owned (length p.rules)) ≡ some (tt, [])))
      ⊎ ((n : ℕ) × (o ≡ some (none, copies 0 n))
          × ((n ≡ 0)
              ⊎ ((rex : RegexSet) × (set_compile rex ≡ false) × (length (patterns rex) ≡ n))))

  destroy_owned :
      (p : Policy lib) → re_policy_destroy lib p (owned (length p.rules)) ≡ some (tt, [])
  unfolding re_policy_destroy owned
  destroy_owned p =
      >>=-some (release tag rex_set) _
        (copies 0 (length p.rules) ++ rex_set ∷ rex_opt ∷ rules_array ∷ [])
        (release_behind rex_set _ _ _ (omega arith) refl)
      ∙ >>=-some (release tag rex_opt) _ (copies 0 (length p.rules) ++ rex_opt ∷ rules_array ∷ [])
          (release_behind rex_opt _ _ _ (omega arith) refl)
      ∙ >>=-some (free_patterns (length p.rules) 0) _
          (copies 0 (length p.rules) ++ rules_array ∷ [])
          (free_patterns_lem (length p.rules) 0 (rules_array ∷ []))

  policy_of : RegexSet → Policy lib
  policy_of rex = record { set = rex; rules = numbered 0 (patterns rex) }

  compile_ok :
      (rex : RegexSet)
      → set_compile rex ≡ true
      → compile_rules lib
          (rex, numbered 0 (patterns rex))
          (copies 0 (length (patterns rex)) ++ all_four)
        ≡ some (some (policy_of rex), owned (length (policy_of rex).rules))
  unfolding compile_rules policy_of owned
  compile_ok rex e = rw (length-numbered 0 (patterns rex)) (
      rw (e, compile_rules)
        (>>=-some (release tag lines_array) _ (copies 0 (length (patterns rex)) ++ all_four)
          (release_behind lines_array _ all_four _ (omega arith) refl)))

  compile_bad :
      (rex : RegexSet)
      → set_compile rex ≡ false
      → compile_rules lib
          (rex, numbered 0 (patterns rex))
          (copies 0 (length (patterns rex)) ++ all_four)
        ≡ some (none, copies 0 (length (patterns rex)))
  unfolding compile_rules
  compile_bad rex e = rw (e, compile_rules) (create_failed_lem (length (patterns rex)))

  compile_rules_lem :
      (rex : RegexSet)
      → Ends (
          compile_rules lib
            (rex, numbered 0 (patterns rex))
            (copies 0 (length (patterns rex)) ++ all_four))
  compile_rules_lem rex = elim (Bool-cases (set_compile rex)) [
    | inl e ↦
        inl
          (policy_of rex, compile_ok rex e, unfold policy_of in refl, destroy_owned (policy_of rex))
    | inr e ↦ inr (length (patterns rex), compile_bad rex e, inr (rex, e, refl))
  ]

  -- From an empty set on.
  fill_from :
      (ps : List Bytes) (rex : RegexSet)
      → patterns rex ≡ []
      → Ends ((add_rules lib ps rex [] >>= compile_rules lib) all_four)
  unfolding numbered copies
  fill_from ps rex e =
      let (rex', q) = add_rules_lem lib ps rex all_four in
      let start : add_rules lib ps rex [] all_four
          ≡ some
              ((rex', numbered 0 (patterns rex')), copies 0 (length (patterns rex')) ++ all_four) =
        ap (λ qs. add_rules lib ps rex (numbered 0 qs) (copies 0 (length qs) ++ all_four)) (sym e)
        ∙ q in
      subst Ends (sym (>>=-some (add_rules lib ps rex []) (compile_rules lib) all_four start))
        (compile_rules_lem rex')

  failed_clean : (o : Option (Option (Policy lib) × List Resource)) → o ≡ some (none, []) → Ends o
  unfolding copies
  failed_clean o e = inr (0, e, inl refl)

  fill_set_good :
      (ps : List Bytes) (rex : RegexSet)
      → set_new ≡ some rex
      → set_error rex ≡ false
      → fill_set lib ps (rex_opt ∷ rules_array ∷ lines_array ∷ [])
        ≡ (add_rules lib ps rex [] >>= compile_rules lib) all_four
  unfolding fill_set
  fill_set_good ps rex e h = rw (e, fill_set) (rw h)

  fill_set_lem :
      (ps : List Bytes) → Ends (fill_set lib ps (rex_opt ∷ rules_array ∷ lines_array ∷ []))
  unfolding fill_set create_failed
  fill_set_lem ps = elim (Option-cases set_new) [
    | inl e ↦ failed_clean _ (rw (e, fill_set))
    | inr (rex, e) ↦ elim (Bool-cases (set_error rex)) [
      | inl h ↦ failed_clean _ (rw (e, fill_set) (rw h))
      | inr h ↦ subst Ends (sym (fill_set_good ps rex e h)) (fill_from ps rex (new_is_empty rex e))
    ]
  ]

  module _ (a : Answers) where
    create_no_file : a.copy_ok ≡ false → re_policy_create lib a [] ≡ some (none, [])
    unfolding re_policy_create
    create_no_file e = rw e

    create_no_lines :
        a.copy_ok ≡ true → a.loaded ≡ none → re_policy_create lib a [] ≡ some (none, [])
    unfolding re_policy_create create_failed
    create_no_lines e l = rw e (rw (l, re_policy_create))

    create_no_memory :
        (ps : List Bytes)
        → a.copy_ok ≡ true
        → a.loaded ≡ some ps
        → (a.malloc_ok && a.opt_ok) ≡ false
        → re_policy_create lib a [] ≡ some (none, [])
    unfolding re_policy_create create_failed
    create_no_memory ps e l m = rw e (rw (l, re_policy_create) (ground arith))

    create_filled :
        (ps : List Bytes)
        → a.copy_ok ≡ true
        → a.loaded ≡ some ps
        → (a.malloc_ok && a.opt_ok) ≡ true
        → re_policy_create lib a [] ≡ fill_set lib ps (rex_opt ∷ rules_array ∷ lines_array ∷ [])
    unfolding re_policy_create
    create_filled ps e l m = rw e (rw (l, re_policy_create) (ground arith))

  -- `re_policy_create` never frees what it has not allocated. It returns a policy whose rule `i`
  -- has the index `i` and is the pattern `i` of the set, and then owns what
  -- `re_policy_destroy` frees, each once, which leaves nothing allocated; or it fails and leaves
  -- nothing allocated, unless `cre2_set_compile` has failed, when the copies of the set's
  -- patterns are left.
  pub re_policy_create-Ends : (a : Answers) → Ends (re_policy_create lib a [])
  re_policy_create-Ends a = elim (Bool-cases a.copy_ok) [
    | inr e ↦ failed_clean _ (create_no_file a e)
    | inl e ↦ elim (Option-cases a.loaded) [
      | inl l ↦ failed_clean _ (create_no_lines a e l)
      | inr (ps, l) ↦ elim (Bool-cases (a.malloc_ok && a.opt_ok)) [
        | inr m ↦ failed_clean _ (create_no_memory a ps e l m)
        | inl m ↦ subst Ends (sym (create_filled a ps e l m)) (fill_set_lem ps)
      ]
    ]
  ]

-- ===== src/Regex/Policy.antt =====
-- apptpl/re_policy.c: `re_policy_create`, `re_policy_destroy`, `re_policy_match`.
-- The cre2 library is a parameter; memory and library objects are resources of a ledger.
pub mod Match
pub mod Outcome
pub mod Aligned
use capptpl.Base.{
  All, Bool, Bytes, List, Option, [], false, if◌then◌else◌, length, min, none, some, true, ℕ, ◌++◌,
  ◌+◌, ◌<◌, ◌∷◌, ◌≡◌, ◌≤◌,
}
use capptpl.Base.Ledger.{M, pure, release, release_if, ◌>>=◌, ◌>>◌}
use capptpl.Base.Ledger.Numbered.{release_all}

-- What the code relies on of cre2: a set knows its patterns, `cre2_set_add` puts one behind them
-- or refuses it, and a match gives how many patterns match and writes the indices of at most
-- `nmatch` of them.
pub record Cre2 : Type 1 where
  pub RegexSet : Type 0
  pub patterns : RegexSet → List Bytes
  pub set_new : Option RegexSet
  pub set_error : RegexSet → Bool
  pub set_add : RegexSet → Bytes → Option RegexSet
  pub set_compile : RegexSet → Bool
  pub set_match : RegexSet → Bytes → ℕ → ℕ × List ℕ
  pub new_is_empty : (s : RegexSet) → set_new ≡ some s → patterns s ≡ []
  pub add_appends :
      (s : RegexSet) (p : Bytes) (s' : RegexSet)
      → set_add s p ≡ some s'
      → patterns s' ≡ patterns s ++ p ∷ []
  pub match_count : (s : RegexSet) (t : Bytes) (n : ℕ) → (set_match s t n).0 ≤ length (patterns s)
  pub match_written :
      (s : RegexSet) (t : Bytes) (n : ℕ) → length (set_match s t n).1 ≡ min n (set_match s t n).0
  pub match_in_range :
      (s : RegexSet) (t : Bytes) (n : ℕ) → All (λ i. i < length (patterns s)) (set_match s t n).1

pub record Rule : Type 0 where
  pub index : ℕ
  pub pattern : Bytes

-- What `re_policy_create` and `re_policy_destroy` allocate and free.
pub data Resource : Type 0 where
  lines_array rules_array rex_opt rex_set : Resource
  pattern_copy : ℕ → Resource

abbrev pub tag : Resource → ℕ
tag lines_array = 0
tag rules_array = 1
tag rex_opt = 2
tag rex_set = 3
tag (pattern_copy n) = 4 + n

-- What the calls before the set is filled answer.
pub record Answers : Type 0 where
  pub copy_ok : Bool
  pub loaded : Option (List Bytes)
  pub malloc_ok : Bool
  pub opt_ok : Bool

-- `for (int i=0; i<rule_num; i++) free(rules[i].pattern);` from `i` on.
unfoldable pub free_patterns : ℕ → ℕ → M Resource (Unit {0})
free_patterns n i = release_all pattern_copy tag n i

module _ (lib : Cre2) where
  open lib use {RegexSet, set_new, set_error, set_add, set_compile, set_match}

  -- `struct re_policy` once it has been created.
  pub record Policy : Type 0 where
    pub set : RegexSet
    pub rules : List Rule

  -- The loop over the lines: the set, and the rules, each with its index. A line that the set
  -- refuses is left out.
  unfoldable pub add_rules : List Bytes → RegexSet → List Rule → M Resource (RegexSet × List Rule)
  add_rules [] rex rules live = some ((rex, rules), live)
  add_rules (p ∷ ps) rex rules live = elim (set_add rex p) [
    | none ↦ add_rules ps rex rules live
    | some rex' ↦
        add_rules ps rex' (rules ++ record { index = length rules; pattern = p } ∷ [])
          (pattern_copy (length rules) ∷ live)
  ]

  -- The label `err`.
  unfoldable pub create_failed : Bool → Bool → Bool → Bool → M Resource (Option Policy)
  create_failed has_set has_opt has_lines has_rules = do
    release_if tag has_set rex_set
    release_if tag has_opt rex_opt
    release_if tag has_lines lines_array
    release_if tag has_rules rules_array
    pure none

  -- From the call of `cre2_set_compile` on.
  unfoldable pub compile_rules : RegexSet × List Rule → M Resource (Option Policy)
  unfolding create_failed
  compile_rules (rex, rules) live =
      if set_compile rex
      then (release tag lines_array >> pure (some (record { set = rex; rules = rules }))) live
      else create_failed true true true true live

  -- From the call of `cre2_set_new` on.
  unfoldable pub fill_set : List Bytes → M Resource (Option Policy)
  unfolding create_failed add_rules compile_rules
  fill_set ps live = elim set_new [
    | none ↦ create_failed false true true true live
    | some rex ↦
        if set_error rex
        then create_failed true true true true (rex_set ∷ live)
        else (add_rules ps rex [] >>= compile_rules) (rex_set ∷ live)
  ]

  -- `none` is the result -1.
  unfoldable pub re_policy_create : Answers → M Resource (Option Policy)
  unfolding create_failed fill_set
  re_policy_create a live =
      if a.copy_ok
      then elim a.loaded [
        | none ↦ create_failed false false false false live
        | some ps ↦
            if a.malloc_ok
            then if a.opt_ok
              then fill_set ps (rex_opt ∷ rules_array ∷ lines_array ∷ live)
              else create_failed false false true true (rules_array ∷ lines_array ∷ live)
            else create_failed false false true false (lines_array ∷ live)
      ]
      else some (none, live)

  -- On a policy that has been created; it leaves `rules` and `rule_num` as they were.
  unfoldable pub re_policy_destroy : Policy → M Resource (Unit {0})
  unfolding free_patterns
  re_policy_destroy p = do
    release tag rex_set
    release tag rex_opt
    free_patterns (length p.rules) 0
    release tag rules_array

  -- The number of matches, and the entries of `match` that are written.
  unfoldable pub re_policy_match : Policy → Bytes → ℕ × List ℕ
  re_policy_match p text = set_match p.set text (length p.rules)

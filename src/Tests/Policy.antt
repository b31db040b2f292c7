-- ===== src/Tests/Policy.antt =====
-- A policy over sets that are lists of patterns, with literal patterns of a line's start.
use mathlib.Core.Option
use capptpl.Base.{
  All, Bool, Bytes, List, Option, [], arith, codes, false, if-both, if◌then◌else◌, length,
  length-take, none, refl, some, suc, take, true, zero, ℕ, ◌&&◌, ◌++◌, ◌+◌, ◌<◌, ◌==◌, ◌∷◌, ◌≡◌,
  ◌≤◌,
}
use capptpl.Regex.Policy.{
  Answers, Cre2, Policy, Resource, add_rules, compile_rules, fill_set, re_policy_create,
  re_policy_match,
}
use capptpl.Regex.Policy.Aligned.{numbered}
use capptpl.Regex.Policy.Match.{Finds, re_policy_match_safe}
use capptpl.Regex.Policy.Outcome.{Ends, re_policy_create-Ends}

abbrev pub starts_with : Bytes → Bytes → Bool
starts_with [] t = true
starts_with (c ∷ p) [] = false
starts_with (c ∷ p) (d ∷ t) = c == d && starts_with p t

-- The indices, from `k` on, of the patterns that the text starts with.
abbrev pub matching : ℕ → List Bytes → Bytes → List ℕ
matching k [] t = []
matching k (p ∷ ps) t = if starts_with p t then k ∷ matching (k + 1) ps t else matching (k + 1) ps t

pub matching-length : (k : ℕ) (ps : List Bytes) (t : Bytes) → length (matching k ps t) ≤ length ps
matching-length k [] t = omega arith
matching-length k (p ∷ ps) t =
    if-both (λ (l : List ℕ). length l ≤ suc (length ps)) (starts_with p t)
      (omega (arith, matching-length (k + 1) ps t)) (omega (arith, matching-length (k + 1) ps t))

-- A bound on all of a list passes to a part of it and to a larger bound.
All-weaken : {m n : ℕ} (l : List ℕ) → m ≤ n → All (λ i. i < m) l → All (λ i. i < n) l
All-weaken [] h a = tt
All-weaken (i ∷ l) h (a, more) = (omega arith, All-weaken l h more)

All-take : (n k : ℕ) (l : List ℕ) → All (λ i. i < n) l → All (λ i. i < n) (take k l)
All-take n zero [] a = tt
All-take n zero (i ∷ l) a = tt
All-take n (suc k) [] a = tt
All-take n (suc k) (i ∷ l) (a, more) = (a, All-take n k l more)

matching-range :
    (k : ℕ) (ps : List Bytes) (t : Bytes) → All (λ i. i < k + length ps) (matching k ps t)
matching-range k [] t = tt
matching-range k (p ∷ ps) t =
    let rest : All (λ i. i < k + suc (length ps)) (matching (k + 1) ps t) =
      All-weaken (matching (k + 1) ps t) (omega arith) (matching-range (k + 1) ps t) in
    if-both (All (λ i. i < k + suc (length ps))) (starts_with p t) (omega arith, rest) rest

pub matching_found :
    (s : List Bytes) (t : Bytes) (n : ℕ) → All (λ i. i < length s) (take n (matching 0 s t))
matching_found s t n =
    All-take (length s) n (matching 0 s t)
      (All-weaken (matching 0 s t) (omega arith) (matching-range 0 s t))

-- A set refuses an empty pattern.
abbrev pub add_pattern : List Bytes → Bytes → Option (List Bytes)
add_pattern s [] = none
add_pattern s (c ∷ p) = some (s ++ (c ∷ p) ∷ [])

pub add_pattern_lem :
    (s : List Bytes) (p : Bytes) (s' : List Bytes) → add_pattern s p ≡ some s' → s' ≡ s ++ p ∷ []
add_pattern_lem s [] s' e = cc
add_pattern_lem s (c ∷ p) s' e = cc

pub empty_lem : (s : List Bytes) → some [] ≡ some s → s ≡ []
empty_lem s e = cc

abbrev pub list_sets : Cre2
list_sets = record {
  RegexSet = List Bytes;
  patterns = λ s. s;
  set_new = some [];
  set_error = λ s. false;
  set_add = add_pattern;
  set_compile = λ s. true;
  set_match = λ s t n. (length (matching 0 s t), take n (matching 0 s t));
  new_is_empty = empty_lem;
  add_appends = add_pattern_lem;
  match_count = λ s t n. matching-length 0 s t;
  match_written = λ s t n. length-take n (matching 0 s t);
  match_in_range = λ s t n. matching_found s t n;
}

abbrev pub three_lines : Answers
three_lines = record {
  copy_ok = true;
  loaded = some (codes "ab" ∷ [] ∷ codes "a" ∷ []);
  malloc_ok = true;
  opt_ok = true;
}

abbrev pub two_rules : Policy list_sets
two_rules = record {
  set = codes "ab" ∷ codes "a" ∷ [];
  rules =
      record { index = 0; pattern = codes "ab" } ∷ record { index = 1; pattern = codes "a" } ∷ [];
}

two_rules_lem :
    Option.map
      (λ (r : Option (Policy list_sets) × List Resource). r.0)
      (re_policy_create list_sets three_lines [])
    ≡ some (some two_rules)
unfolding re_policy_create fill_set add_rules compile_rules
two_rules_lem = refl

two_rules_match : re_policy_match list_sets two_rules (codes "ac") ≡ (1, 1 ∷ [])
unfolding re_policy_match
two_rules_match = refl

re_policy_create-Ends_example : Ends list_sets (re_policy_create list_sets three_lines [])
re_policy_create-Ends_example = re_policy_create-Ends list_sets three_lines

re_policy_match_safe_example :
    (length (re_policy_match list_sets two_rules (codes "abc")).1
      ≡ (re_policy_match list_sets two_rules (codes "abc")).0)
    × All (Finds list_sets two_rules) (re_policy_match list_sets two_rules (codes "abc")).1
unfolding numbered
re_policy_match_safe_example = re_policy_match_safe list_sets two_rules (codes "abc") refl

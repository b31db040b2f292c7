-- ===== src/Parsers/Outcome.antt =====
-- How `parser_create` ends, and that `parser_destroy` undoes it.
use capptpl.Regex.Policy.Outcome.{Ends as PolicyEnds}
use capptpl.Words.{Resource as WordResource}
use capptpl.Regex.Policy.{Resource as RegexResource}
use capptpl.Words.{Answers as WordAnswers}
use capptpl.Regex.Policy.{Answers as RegexAnswers}
use capptpl.Regex.Policy.Aligned.{owned as regex_owned}
use capptpl.Words.Owned.{owned as words_owned}
use capptpl.Base.{
  Bool, Bool-cases, List, Option, [], false, inl, inr, length, none, refl, some, true, ℕ, ◌∙◌, ◌≡◌,
  ◌⊎◌,
}
use capptpl.Base.State.{zoom-bind}
use capptpl.Parsers.{
  Held, Policies, destroy_rep, finish_create, no_words, nothing_held, parser_create, parser_destroy,
  regex_part, words_part, zeroed_policies,
}
use capptpl.Regex.Policy.{Cre2, Policy, re_policy_create}
use capptpl.Regex.Policy.Aligned.{copies}
use capptpl.Regex.Policy.Outcome.{re_policy_create-Ends}
use capptpl.Words.{WordPolicy, word_policy_create, word_policy_destroy}
use capptpl.Words.Owned.{create_lem, creates}

-- What two created policies hold, with `n` rules.
abbrev pub held_by : ℕ → Held
held_by n = record { words = words_owned true; regex = regex_owned n }

abbrev regex_only : List RegexResource → Held
regex_only l = record { words = []; regex = l }

-- What is left of the copies of `n` patterns.
abbrev pub copies_left : ℕ → Held
copies_left n = regex_only (copies 0 n)

module _ (lib : Cre2) where
  -- The result of `parser_create`, and what `parser_destroy` makes of it.
  abbrev pub Ends : Option ((Bool × Policies lib) × Held) → Type 0
  Ends o =
      ((p : Policies lib) × (q : Policies lib) × (n : ℕ) × (o ≡ some ((true, p), held_by n))
        × (parser_destroy lib p (held_by n) ≡ some (q, nothing_held)))
      ⊎ ((p : Policies lib) × (q : Policies lib) × (n : ℕ) × (o ≡ some ((false, p), copies_left n))
          × ((n ≡ 0)
              ⊎ ((rex : lib.RegexSet) × (lib.set_compile rex ≡ false)
                  × (length (lib.patterns rex) ≡ n)))
          × (parser_destroy lib p (copies_left n) ≡ some (q, copies_left n)))

  destroy_both :
      (w w' : WordPolicy) (rep : Option (Policy lib)) (h : Held) (l : List WordResource)
      (r : List RegexResource)
      → word_policy_destroy w h.words ≡ some (w', l)
      → destroy_rep lib rep h.regex ≡ some (tt, r)
      → parser_destroy lib (record { wordp = w; rep = rep }) h
        ≡ some (record { wordp = w'; rep = rep }, record { words = l; regex = r })
  unfolding parser_destroy
  destroy_both w w' rep h l r e k =
      zoom-bind words_part (word_policy_destroy w) _ h e
      ∙ zoom-bind regex_part (destroy_rep lib rep) _ (record h { words = l }) k

  module _ (wa : WordAnswers) (ra : RegexAnswers) where
    abbrev made : WordPolicy
    made = record { npatts = wa.words; pattv = true; psp = true }

    abbrev freed : WordPolicy
    freed = record made { pattv = false; psp = false }

    words_failed :
        creates wa ≡ false → word_policy_create wa no_words [] ≡ some ((false, no_words), [])
    words_failed e = create_lem wa no_words refl ∙ rw e

    words_made :
        creates wa ≡ true
        → word_policy_create wa no_words [] ≡ some ((true, made), words_owned true)
    words_made e = create_lem wa no_words refl ∙ rw e

    destroy_made : word_policy_destroy made (words_owned true) ≡ some (freed, [])
    unfolding word_policy_destroy
    destroy_made = refl

    no_word_policy :
        creates wa ≡ false
        → parser_create lib wa ra nothing_held ≡ some ((false, zeroed_policies lib), nothing_held)
    unfolding parser_create
    no_word_policy e =
        zoom-bind words_part (word_policy_create wa no_words) _ nothing_held (words_failed e)

    abbrev words_only : Held
    words_only = record nothing_held { words = words_owned true }

    create_rest :
        (o : Option (Policy lib)) (r : List RegexResource)
        → creates wa ≡ true
        → re_policy_create lib ra [] ≡ some (o, r)
        → parser_create lib wa ra nothing_held
          ≡ finish_create lib made o (record words_only { regex = r })
    unfolding parser_create
    create_rest o r e k =
        zoom-bind words_part (word_policy_create wa no_words) _ nothing_held (words_made e)
        ∙ zoom-bind regex_part (re_policy_create lib ra) (finish_create lib made) words_only k

    no_regex :
        (r : List RegexResource)
        → finish_create lib made none (record words_only { regex = r })
          ≡ some ((false, record { wordp = freed; rep = none }), regex_only r)
    unfolding finish_create
    no_regex r =
        zoom-bind words_part (word_policy_destroy made) _ (record words_only { regex = r })
          destroy_made

    with_regex :
        creates wa ≡ true
        → PolicyEnds lib (re_policy_create lib ra [])
        → Ends (parser_create lib wa ra nothing_held)
    unfolding finish_create destroy_rep word_policy_destroy
    with_regex e (inl (p, k, same, d)) =
        let n = length p.rules in
        inl (
          record { wordp = made; rep = some p },
          record { wordp = freed; rep = some p },
          n,
          create_rest (some p) (regex_owned n) e k,
          destroy_both made freed (some p) (held_by n) [] [] destroy_made d,
        )
    with_regex e (inr (n, k, why)) = inr (
      record { wordp = freed; rep = none },
      record { wordp = freed; rep = none },
      n,
      create_rest none (copies 0 n) e k ∙ no_regex (copies 0 n),
      why,
      destroy_both freed freed none (copies_left n) [] (copies 0 n) refl refl,
    )

    -- Creating both policies on zeroed memory never frees what is not held. It returns 0, and
    -- `parser_destroy` then frees all that is held, each once; or it fails with the word policy
    -- freed again, and nothing held but, where `cre2_set_compile` has failed, the copies of the
    -- patterns; `parser_destroy` may then be called all the same, and does nothing.
    pub parser_create-Ends : Ends (parser_create lib wa ra nothing_held)
    unfolding copies word_policy_destroy destroy_rep
    parser_create-Ends = elim (Bool-cases (creates wa)) [
      | inl e ↦ with_regex e (re_policy_create-Ends lib ra)
      | inr e ↦ inr (
        zeroed_policies lib,
        zeroed_policies lib,
        0,
        no_word_policy e,
        inl refl,
        destroy_both no_words no_words none nothing_held [] [] refl refl,
      )
    ]

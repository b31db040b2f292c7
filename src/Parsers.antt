-- ===== src/Parsers.antt =====
-- apptpl/parser.c: `parser_create` and `parser_destroy`, which create and destroy both policies.
-- The word policy and the regular expression policy each have a ledger.
pub mod Matching
pub mod Outcome
use capptpl.Words.{Resource as WordResource, Answers as WordAnswers}
use capptpl.Regex.Policy.{Resource as RegexResource, Answers as RegexAnswers}
use capptpl.Base.{Bool, List, Option, [], false, if◌then◌else◌, none, some, true}
use capptpl.Base.Ledger.{M}
use capptpl.Base.State.{Part, State, pure, zoom, ◌>>=◌, ◌>>◌}
use capptpl.Regex.Policy.{Cre2, Policy, re_policy_create, re_policy_destroy}
use capptpl.Words.{WordPolicy, word_policy_create, word_policy_destroy}

pub record Held : Type 0 where
  pub words : List WordResource
  pub regex : List RegexResource

abbrev pub nothing_held : Held
nothing_held = record { words = []; regex = [] }

abbrev pub words_part : Part Held (List WordResource)
words_part = record { get = λ h. h.words; put = λ l h. record h { words = l } }

abbrev pub regex_part : Part Held (List RegexResource)
regex_part = record { get = λ h. h.regex; put = λ l h. record h { regex = l } }

abbrev pub no_words : WordPolicy
no_words = record { npatts = 0; pattv = false; psp = false }

module _ (lib : Cre2) where
  -- The policies of `struct parser`; `none` is the memory that `main` has set to zero.
  pub record Policies : Type 0 where
    pub wordp : WordPolicy
    pub rep : Option (Policy lib)

  abbrev pub zeroed_policies : Policies
  zeroed_policies = record { wordp = no_words; rep = none }

  -- From the result of `re_policy_create` on.
  unfoldable pub finish_create : WordPolicy → Option (Policy lib) → State Held (Bool × Policies)
  unfolding word_policy_destroy
  finish_create w (some p) = pure (true, record { wordp = w; rep = some p })
  finish_create w none = zoom words_part (word_policy_destroy w) >>= λ w'.
      pure (false, record { wordp = w'; rep = none })

  -- On policies that are zero. Whether it returns 0, and the policies.
  unfoldable pub parser_create : WordAnswers → RegexAnswers → State Held (Bool × Policies)
  unfolding word_policy_create re_policy_create finish_create
  parser_create wa ra = zoom words_part (word_policy_create wa no_words) >>= λ r.
      if r.0
      then (zoom regex_part (re_policy_create lib ra) >>= finish_create r.1)
      else pure (false, record { wordp = r.1; rep = none })

  -- `re_policy_destroy`, which on zeroed memory has nothing to free.
  unfoldable pub destroy_rep : Option (Policy lib) → M RegexResource (Unit {0})
  unfolding re_policy_destroy
  destroy_rep none = pure tt
  destroy_rep (some p) = re_policy_destroy lib p

  unfoldable pub parser_destroy : Policies → State Held Policies
  unfolding word_policy_destroy destroy_rep
  parser_destroy p = zoom words_part (word_policy_destroy p.wordp) >>= λ w.
      zoom regex_part (destroy_rep p.rep) >> pure (record p { wordp = w })

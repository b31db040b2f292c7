-- ===== src/Tests/Words.antt =====
-- A word policy at concrete answers.
use capptpl.Base.{[], false, refl, some, true, ◌≡◌}
use capptpl.Words.{Answers, WordPolicy, word_policy_create, word_policy_destroy}
use capptpl.Words.Owned.{creates, owned, word_policy_create_destroy}

abbrev no_words : WordPolicy
no_words = record { npatts = 0; pattv = false; psp = false }

abbrev five_words : Answers
five_words = record { copy_ok = true; slurp_ok = true; words = 5; create_ok = true }

words_created_destroyed :
    (w1 : WordPolicy) × (w2 : WordPolicy) × (word_policy_create five_words no_words []
      ≡ some ((creates five_words, w1), owned (creates five_words)))
    × (word_policy_destroy w1 (owned (creates five_words)) ≡ some (w2, []))
    × (word_policy_destroy w2 [] ≡ some (w2, []))
words_created_destroyed = word_policy_create_destroy five_words no_words refl

-- ===== src/Words.antt =====
-- apptpl/word_policy.c: `word_policy_create` and `word_policy_destroy`. What the Aho-Corasick
-- library and the files answer is an argument; `refsplit` is taken to succeed, as the code does.
pub mod Owned
use capptpl.Base.{Bool, false, if◌then◌else◌, true, ℕ}
use capptpl.Base.Ledger.{M, acquire, pure, release, ◌>>◌}

pub data Resource : Type 0 where
  patt_buffer pattv_array automaton : Resource

abbrev pub tag : Resource → ℕ
tag patt_buffer = 0
tag pattv_array = 1
tag automaton = 2

-- `struct word_policy`; `pattv` and `psp` say that the pointers are not NULL.
pub record WordPolicy : Type 0 where
  pub npatts : ℕ
  pub pattv : Bool
  pub psp : Bool

-- The file is there or copied, it can be read, it splits into so many words, and the automaton
-- is made.
pub record Answers : Type 0 where
  pub copy_ok : Bool
  pub slurp_ok : Bool
  pub words : ℕ
  pub create_ok : Bool

-- From the call of `acism_create` on.
unfoldable pub build_automaton : Answers → WordPolicy → M Resource (Bool × WordPolicy)
build_automaton a w =
    if a.create_ok
    then (acquire automaton >> pure (true, record w { npatts = a.words; pattv = true; psp = true }))
    else (release tag patt_buffer >> release tag pattv_array >> pure (false, w))

-- Whether it returns 0, and the policy.
unfoldable pub word_policy_create : Answers → WordPolicy → M Resource (Bool × WordPolicy)
unfolding build_automaton
word_policy_create a w =
    if w.psp
    then pure (false, w)
    else if a.copy_ok
    then if a.slurp_ok
      then (acquire patt_buffer >> acquire pattv_array >> build_automaton a w)
      else pure (false, w)
    else pure (false, w)

unfoldable pub word_policy_destroy : WordPolicy → M Resource WordPolicy
word_policy_destroy w =
    if w.psp
    then (release tag patt_buffer
        >> release tag pattv_array
        >> release tag automaton
        >> pure (record w { pattv = false; psp = false }))
    else pure w

-- ===== src/Words/Owned.antt =====
-- What a word policy owns.
use capptpl.Base.{
  Bool, Bool-cases, List, [], ap, arith, false, if◌then◌else◌, inl, inr, refl, some, sym, true,
  ◌&&◌, ◌∙◌, ◌∷◌, ◌≡◌,
}
use capptpl.Words.{
  Answers, Resource, WordPolicy, automaton, build_automaton, patt_buffer, pattv_array,
  word_policy_create, word_policy_destroy,
}

-- What a policy with an automaton, or without, holds.
abbrev pub owned : Bool → List Resource
owned b = if b then automaton ∷ pattv_array ∷ patt_buffer ∷ [] else []

-- The policy is created exactly if every call has succeeded.
pub creates : Answers → Bool
creates a = a.copy_ok && a.slurp_ok && a.create_ok

pub create_lem :
    (a : Answers) (w : WordPolicy)
    → w.psp ≡ false
    → word_policy_create a w []
      ≡ some (
        (
          creates a,
          if creates a then record w { npatts = a.words; pattv = true; psp = true } else w,
        ),
        owned (creates a),
      )
unfolding word_policy_create build_automaton creates
create_lem a w h = ground arith

pub destroy_lem :
    (w : WordPolicy)
    → (w' : WordPolicy) × (word_policy_destroy w (owned w.psp) ≡ some (w', []))
      × (w'.psp ≡ false)
      × (word_policy_destroy w' [] ≡ some (w', []))
unfolding word_policy_destroy
destroy_lem w = elim (Bool-cases w.psp) [
  | inl e ↦ (record w { pattv = false; psp = false }, rw e, refl, refl)
  | inr e ↦ (w, rw e, e, rw e)
]

-- For a policy that has not been created: `word_policy_create` frees nothing that it does not
-- hold, and returns 0 exactly if the file, its content and the automaton are there. Whether it
-- has returned 0 or not, `word_policy_destroy` then frees what is held, each once, and may be
-- called a second time, when it does nothing.
pub word_policy_create_destroy :
    (a : Answers) (w : WordPolicy)
    → w.psp ≡ false
    → (w1 : WordPolicy) × (w2 : WordPolicy) × (word_policy_create a w []
        ≡ some ((creates a, w1), owned (creates a)))
      × (word_policy_destroy w1 (owned (creates a)) ≡ some (w2, []))
      × (word_policy_destroy w2 [] ≡ some (w2, []))
word_policy_create_destroy a w h = elim (Bool-cases (creates a)) [
  | inl e ↦
      let w1 : WordPolicy = record w { npatts = a.words; pattv = true; psp = true } in
      let (w2, d, _, again) = destroy_lem w1 in (w1, w2, create_lem a w h ∙ rw e, rw e d, again)
  | inr e ↦
      let (w2, d, _, again) = destroy_lem w in
      let held = ap (λ b. word_policy_destroy w (owned b)) (e ∙ sym h) in
      (w, w2, create_lem a w h ∙ rw e, held ∙ d, again)
]

-- ===== src/Parsers/Matching.antt =====
-- apptpl/parser.c, what `parser_loop` does with a packet, with `match_word_cb`, and
-- `word_policy_match` of apptpl/word_policy.c.
pub mod Counted
use mathlib.Core.Option
use capptpl.Base.{
  All, Bytes, List, Option, [], get_elem?, if◌then◌else◌, length, map, none, some, suc, zero, ℕ,
  ◌%◌, ◌++◌, ◌+◌, ◌<◌, ◌==◌, ◌∷◌, ◌≡◌,
}
use capptpl.Packets.{Counters, Matcher, Packet, u64}
use capptpl.Regex.Policy.{Cre2, Policy, Rule, re_policy_match}

-- `acism_more` calls back for each match, in their order, as long as the callback returns 0.
unfoldable pub call_each : {S : Type 0} → (ℕ × ℕ → S → ℕ × S) → List (ℕ × ℕ) → S → S
call_each match_cb [] s = s
call_each match_cb (m ∷ ms) s = call_each match_cb ms (match_cb m s).1

-- What the code relies on of lib/aho-corasick, for the automaton that `acism_create` has made of the
-- words `pattv`: it finds words in a text, each by its number in `pattv` and the place behind it.
pub record Acism : Type 1 where
  pub pattv : List Bytes
  pub find : Bytes → List (ℕ × ℕ)
  pub find_numbers : (text : Bytes) → All (λ m. m.0 < length pattv) (find text)
  pub more : {S : Type 0} → Bytes → (ℕ × ℕ → S → ℕ × S) → S → S
  pub more_calls :
      {S : Type 0} (text : Bytes) (match_cb : ℕ × ℕ → S → ℕ × S) (s : S)
      → ((m : ℕ × ℕ) (u : S) → (match_cb m u).0 ≡ 0)
      → more text match_cb s ≡ call_each match_cb (find text) s

-- The counters and the words that are logged; `none` is a read outside `pattv`.
abbrev pub Logged : Type 0
Logged = Option (Counters × List Bytes)

-- `pattv[strnum]`, for the log.
unfoldable pub log_word : Option Bytes → Counters → List Bytes → Logged
log_word none c ws = none
log_word (some w) c ws = some (c, ws ++ w ∷ [])

-- It returns 0.
unfoldable pub match_word_cb : List Bytes → ℕ × ℕ → Logged → ℕ × Logged
unfolding log_word
match_word_cb pattv m none = (0, none)
match_word_cb pattv m (some (c, ws)) = (
  0,
  log_word (get_elem? pattv m.0) (record c { word_match_count = (c.word_match_count + 1) % u64 })
      ws,
)

-- `rules[re_match[i]].pattern` for the first `rc` entries; `none` is a read outside an array.
unfoldable pub look_up : List Rule → List ℕ → ℕ → Option (List Bytes)
look_up rules re_match zero = some []
look_up rules [] (suc rc) = none
look_up rules (i ∷ re_match) (suc rc) =
    let rest = look_up rules re_match rc in
    elim (get_elem? rules i) [ none ↦ none | some rule ↦ Option.map (λ ps. rule.pattern ∷ ps) rest ]

module _ (acism : Acism) (lib : Cre2) where
  unfoldable pub word_policy_match : Bytes → Counters → Logged
  unfolding match_word_cb
  word_policy_match text c = acism.more text (match_word_cb acism.pattv) (some (c, []))

  -- From the result of `re_policy_match` on: the counters, and the patterns that are logged.
  unfoldable pub count_regexes : Policy lib → ℕ × List ℕ → Counters → Option (Counters × List Bytes)
  unfolding look_up
  count_regexes rep (rc, re_match) c =
      if rc == 0 then some (c, []) else elim (look_up rep.rules re_match rc) [
        | none ↦ none
        | some patterns ↦
            some (record c { regex_match_count = (c.regex_match_count + rc) % u64 }, patterns)
      ]

  -- From the return of `word_policy_match` on: the counters, and the words and the patterns that
  -- are logged.
  unfoldable pub match_regexes :
      Policy lib → ℕ × List ℕ → Logged → Option (Counters × List Bytes × List Bytes)
  unfolding count_regexes
  match_regexes rep found none = none
  match_regexes rep found (some (c, ws)) =
      Option.map (λ (q : Counters × List Bytes). (q.0, ws, q.1)) (count_regexes rep found c)

  unfoldable pub match_packet :
      Policy lib → Packet → Counters → Option (Counters × List Bytes × List Bytes)
  unfolding word_policy_match re_policy_match match_regexes
  match_packet rep pkt c =
      match_regexes rep (re_policy_match lib rep pkt.payload) (word_policy_match pkt.payload c)

  -- What the two policies find, as the threads' model has it.
  unfoldable pub found_by : Policy lib → Matcher
  unfolding re_policy_match
  found_by rep = record {
    words = λ pkt. length (acism.find pkt.payload);
    regexes = λ pkt. (re_policy_match lib rep pkt.payload).0;
  }

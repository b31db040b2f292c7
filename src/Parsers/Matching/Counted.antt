-- ===== src/Parsers/Matching/Counted.antt =====
-- What `parser_loop` does with a packet is the step that the threads' model takes.
use mathlib.Core.Option
use mathlib.Core.Path.{subst}
use capptpl.Base.{
  All, Bytes, List, [], ap, arith, get_elem?, inl, inr, length, length-append, none, refl, some,
  suc, sym, zero, ℕ, ◌%◌, ◌++◌, ◌+◌, ◌<◌, ◌∙◌, ◌∷◌, ◌≡◌,
}
use capptpl.Channel.{Channel}
use capptpl.Packets.{Counters, Matcher, Packet, count_patterns, count_word, u64}
use capptpl.Parsers.Matching.{
  Acism, Logged, call_each, count_regexes, found_by, log_word, look_up, match_packet, match_regexes,
  match_word_cb, word_policy_match,
}
use capptpl.Regex.Policy.{Answers, Cre2, Policy, Resource, re_policy_create, re_policy_match}
use capptpl.Regex.Policy.Aligned.{numbered}
use capptpl.Regex.Policy.Match.{Finds, re_policy_match_safe}
use capptpl.Regex.Policy.Outcome.{re_policy_create-Ends}

module _ (acism : Acism) (lib : Cre2) where
  created_rules :
      (a : Answers) (p : Policy lib) (live : List Resource)
      → re_policy_create lib a [] ≡ some (some p, live)
      → p.rules ≡ numbered 0 (lib.patterns p.set)
  created_rules a p live e = elim (re_policy_create-Ends lib a) [
    | inl (p', f, r, d) ↦
        subst (λ (q : Policy lib). q.rules ≡ numbered 0 (lib.patterns q.set)) (cc (e, f)) r
    | inr (n, f, d) ↦ cc (e, f)
  ]

  looked_up :
      (p : Policy lib) (re_match : List ℕ)
      → All (Finds lib p) re_match
      → (ps : List Bytes) × (look_up p.rules re_match (length re_match) ≡ some ps)
        × (length ps ≡ length re_match)
  unfolding look_up
  looked_up p [] h = ([], refl, refl)
  looked_up p (i ∷ re_match) ((q, e, g), hs) =
      let (ps, f, l) = looked_up p re_match hs in
      (q ∷ ps, rw (g, look_up) (rw (f, Option.map)), ap suc l)

  -- So many words counted by the steps of the threads' model.
  pub count_words : (packets : Channel Packet) → Matcher → ℕ → Counters → Counters
  count_words packets m zero c = c
  count_words packets m (suc k) c = count_words packets m k (count_word packets m c)

  in_bounds : (ws : List Bytes) (i : ℕ) → i < length ws → (w : Bytes) × (get_elem? ws i ≡ some w)
  in_bounds [] i h = absurd (omega arith)
  in_bounds (w ∷ ws) zero h = (w, refl)
  in_bounds (w ∷ ws) (suc i) h = in_bounds ws i (omega arith)

  call_each-length :
      (packets : Channel Packet) (m : Matcher) (pattv : List Bytes) (ms : List (ℕ × ℕ))
      (c : Counters) (ws : List Bytes)
      → All (λ x. x.0 < length pattv) ms
      → (out : List Bytes) × (call_each (match_word_cb pattv) ms (some (c, ws))
          ≡ some (count_words packets m (length ms) c, out))
        × (length out ≡ length ws + length ms)
  unfolding call_each match_word_cb log_word count_word count_words
  call_each-length packets m pattv [] c ws h = (ws, refl, omega arith)
  call_each-length packets m pattv (x ∷ ms) c ws (h, hs) =
      let (w, f) = in_bounds pattv x.0 h in
      let next : Counters = record c { word_match_count = (c.word_match_count + 1) % u64 } in
      let (out, e, l) = call_each-length packets m pattv ms next (ws ++ w ∷ []) hs in
      (out, rw f e, omega (arith, l, length-append {0} ws (w ∷ [])))

  match_word_cb_goes_on :
      (pattv : List Bytes) (m : ℕ × ℕ) (u : Logged) → (match_word_cb pattv m u).0 ≡ 0
  unfolding match_word_cb
  match_word_cb_goes_on pattv m none = refl
  match_word_cb_goes_on pattv m (some u) = refl

  word_policy_match-length :
      (packets : Channel Packet) (m : Matcher) (text : Bytes) (c : Counters)
      → (out : List Bytes) × (word_policy_match acism lib text c
          ≡ some (count_words packets m (length (acism.find text)) c, out))
        × (length out ≡ length (acism.find text))
  unfolding word_policy_match
  word_policy_match-length packets m text c =
      let (out, e, l) =
        call_each-length packets m acism.pattv (acism.find text) c [] (acism.find_numbers text) in
      (
        out,
        acism.more_calls text (match_word_cb acism.pattv) (some (c, []))
              (match_word_cb_goes_on acism.pattv)
            ∙ e,
        omega (arith, l),
      )

  count_words-regexes :
      (packets : Channel Packet) (m : Matcher) (k : ℕ) (c : Counters)
      → (count_words packets m k c).regex_match_count ≡ c.regex_match_count
  unfolding count_words count_word
  count_words-regexes packets m zero c = refl
  count_words-regexes packets m (suc k) c = count_words-regexes packets m k (count_word packets m c)

  count_regexes-some :
      (rep : Policy lib) (rc : ℕ) (re_match : List ℕ) (c : Counters)
      → c.regex_match_count < u64
      → length re_match ≡ rc
      → All (Finds lib rep) re_match
      → (ps : List Bytes) × (count_regexes acism lib rep (rc, re_match) c
          ≡ some (record c { regex_match_count = (c.regex_match_count + rc) % u64 }, ps))
        × (length ps ≡ rc)
  unfolding count_regexes
  count_regexes-some rep zero re_match c h l f =
      let same : (c.regex_match_count + 0) % u64 ≡ c.regex_match_count = omega (arith, h) in
      ([], λ i. some (record c { regex_match_count = sym same i }, []), refl)
  count_regexes-some rep (suc rc) re_match c h l f =
      let (ps, e, k) = looked_up rep re_match f in
      let found : look_up rep.rules re_match (suc rc) ≡ some ps =
        ap (look_up rep.rules re_match) (sym l) ∙ e in
      (ps, rw (found, count_regexes) (ground arith), k ∙ l)

  -- For a policy that `re_policy_create` has made, a packet and counters of 64 bits: what the parser
  -- does with the packet reads neither the words, nor the rules, nor the matches outside their
  -- arrays, logs one word for each match of a word and one pattern for each match of a regular
  -- expression, and leaves the counters as the steps of the threads' model do, which count each word
  -- that the automaton finds and then those matches, modulo 2 ^ 64.
  pub match_packet-count_matches :
      (packets : Channel Packet) (a : Answers) (live : List Resource) (rep : Policy lib)
      (pkt : Packet) (c : Counters)
      → re_policy_create lib a [] ≡ some (some rep, live)
      → c.regex_match_count < u64
      → let m = found_by acism lib rep in
        (ws ps : List Bytes) × (match_packet acism lib rep pkt c
          ≡ some (count_patterns packets m pkt (count_words packets m (m.words pkt) c), ws, ps))
        × (length ws ≡ m.words pkt)
        × (length ps ≡ m.regexes pkt)
  unfolding match_packet match_regexes count_patterns found_by
  match_packet-count_matches packets a live rep pkt c e r =
      let (l, f) = re_policy_match_safe lib rep pkt.payload (created_rules a rep live e) in
      let found = re_policy_match lib rep pkt.payload in
      let m = found_by acism lib rep in
      let (ws, g, n) = word_policy_match-length packets m pkt.payload c in
      let counted = count_words packets m (length (acism.find pkt.payload)) c in
      let fits : counted.regex_match_count < u64 =
        omega (arith, r, count_words-regexes packets m (length (acism.find pkt.payload)) c) in
      let (ps, k, q) = count_regexes-some rep found.0 found.1 counted fits l f in
      (
        ws,
        ps,
        ap (match_regexes acism lib rep found) g
            ∙ ap (Option.map (λ (r : Counters × List Bytes). (r.0, ws, r.1))) k,
        n,
        q,
      )

-- ===== src/Tests/Matching.antt =====
-- A packet matched against both policies, with an automaton that finds the letter `a`.
use mathlib.Core.Option
use capptpl.Tests.Policy.{list_sets as sets, three_lines as lines, two_rules as rules}
use capptpl.Base.{
  All, Bytes, List, [], arith, codes, if-both, if◌then◌else◌, length, refl, some, ℕ, ◌+◌, ◌<◌, ◌==◌,
  ◌∷◌, ◌≡◌,
}
use capptpl.Channel.{list_channel}
use capptpl.Packets.{Counters, Packet, count_patterns, no_counts}
use capptpl.Parsers.Matching.{
  Acism, call_each, count_regexes, found_by, log_word, look_up, match_packet, match_regexes,
  match_word_cb, word_policy_match,
}
use capptpl.Parsers.Matching.Counted.{count_words, match_packet-count_matches}
use capptpl.Regex.Policy.{
  Resource, add_rules, compile_rules, fill_set, pattern_copy, re_policy_create, re_policy_match,
  rex_opt, rex_set, rules_array,
}

abbrev letters : ℕ → Bytes → List (ℕ × ℕ)
letters k [] = []
letters k (c ∷ s) = if c == b'a' then (0, k + 1) ∷ letters (k + 1) s else letters (k + 1) s

letters_numbered : (k : ℕ) (s : Bytes) → All (λ m. m.0 < 1) (letters k s)
letters_numbered k [] = tt
letters_numbered k (c ∷ s) =
    if-both (All (λ m. m.0 < 1)) (c == b'a') (omega arith, letters_numbered (k + 1) s)
      (letters_numbered (k + 1) s)

-- The search goes on while the callback returns 0.
abbrev call_while : {S : Type 0} → (ℕ × ℕ → S → ℕ × S) → List (ℕ × ℕ) → S → S
call_while match_cb [] s = s
call_while match_cb (m ∷ ms) s =
    if (match_cb m s).0 == 0 then call_while match_cb ms (match_cb m s).1 else (match_cb m s).1

call_while-call_each :
    {S : Type 0} (match_cb : ℕ × ℕ → S → ℕ × S) (ms : List (ℕ × ℕ)) (s : S)
    → ((m : ℕ × ℕ) (u : S) → (match_cb m u).0 ≡ 0)
    → call_while match_cb ms s ≡ call_each match_cb ms s
unfolding call_each
call_while-call_each match_cb [] s h = refl
call_while-call_each match_cb (m ∷ ms) s h =
    ground (arith, h m s, call_while-call_each match_cb ms (match_cb m s).1 h)

abbrev letter_finder : Acism
letter_finder = record {
  pattv = codes "a" ∷ [];
  find = letters 0;
  find_numbers = letters_numbered 0;
  more = λ text match_cb s. call_while match_cb (letters 0 text) s;
  more_calls = λ text match_cb s h. call_while-call_each match_cb (letters 0 text) s h;
}

abbrev banana : Packet
banana = record { caplen = 6; len = 6; payload = codes "abanan" }

banana_matched :
    Option.map {B = ℕ × ℕ}
      (λ (r : Counters × List Bytes × List Bytes). (r.0.word_match_count, length r.1))
      (match_packet letter_finder sets rules banana no_counts)
    ≡ some (3, 3)
unfolding match_packet match_regexes word_policy_match match_word_cb log_word count_regexes look_up
    re_policy_match
banana_matched = refl

abbrev kept_live : List Resource
kept_live = pattern_copy 1 ∷ pattern_copy 0 ∷ rex_set ∷ rex_opt ∷ rules_array ∷ []

rules_created : re_policy_create sets lines [] ≡ some (some rules, kept_live)
unfolding re_policy_create fill_set add_rules compile_rules
rules_created = refl

match_packet-count_matches_example :
    let m = found_by letter_finder sets rules in
    (ws ps : List Bytes) × (match_packet letter_finder sets rules banana no_counts
      ≡ some (
        count_patterns
            (list_channel Packet)
            m
            banana
            (count_words letter_finder sets (list_channel Packet) m (m.words banana) no_counts),
        ws,
        ps,
      ))
    × (length ws ≡ m.words banana)
    × (length ps ≡ m.regexes banana)
match_packet-count_matches_example =
    match_packet-count_matches letter_finder sets (list_channel Packet) lines kept_live rules banana
      no_counts rules_created (omega arith)

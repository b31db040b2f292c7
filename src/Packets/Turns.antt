-- ===== src/Packets/Turns.antt =====
-- What a turn of a parser thread does to the counters that the threads share.
use mathlib.Core.Path.{subst}
use capptpl.Base.{
  Option, [], arith, get_or, if-both, length, length-append, none, refl, set, some, suc, sym, zero,
  ℕ, ◌%◌, ◌+◌, ◌<◌, ◌∷◌, ◌≡◌, ◌≢◌,
}
use capptpl.Channel.{Channel}
use capptpl.Packets.{
  Counters, Matcher, Packet, Parser, State, at_channel, at_loop, count_bytes, count_packet,
  count_patterns, count_word, ended, matched, matching, parser_step, receive_packet, u64, uncounted,
  unsized, waiting_start,
}
use capptpl.Packets.Order.{sum_of, sum_of-snoc, total, total-set}

-- What a thread has still to add to each counter for the packet that it has.
unfoldable pub to_count : Parser → ℕ
to_count (uncounted p) = 1
to_count _ = 0

unfoldable pub to_size : Parser → ℕ
to_size (uncounted p) = p.caplen
to_size (unsized p) = p.caplen
to_size _ = 0

unfoldable pub words_left : Matcher → Parser → ℕ
words_left m (uncounted p) = m.words p
words_left m (unsized p) = m.words p
words_left m (matching p k) = k
words_left m _ = 0

unfoldable pub regexes_left : Matcher → Parser → ℕ
regexes_left m (uncounted p) = m.regexes p
regexes_left m (unsized p) = m.regexes p
regexes_left m (matching p k) = m.regexes p
regexes_left m _ = 0

-- The counters are of 64 bits.
abbrev pub Fits : Counters → Type 0
Fits c =
    (c.count < u64) × (c.bytes < u64) × (c.word_match_count < u64) × (c.regex_match_count < u64)

module _ (lib : Channel Packet) (matcher : Matcher) where
  pub record IsCounted (s : State lib matcher) : Type 0 where
    pub packets : (s.counters.count + total to_count s.parsers) % u64 ≡ length s.taken % u64
    pub bytes :
        (s.counters.bytes + total to_size s.parsers) % u64 ≡ sum_of (λ p. p.caplen) s.taken % u64
    pub words :
        (s.counters.word_match_count + total (words_left matcher) s.parsers) % u64
        ≡ sum_of matcher.words s.taken % u64
    pub regexes :
        (s.counters.regex_match_count + total (regexes_left matcher) s.parsers) % u64
        ≡ sum_of matcher.regexes s.taken % u64
    pub fits : Fits s.counters

  -- A thread that has nothing to count, before and after.
  rests-IsCounted :
      (i : ℕ) (p q : Parser) (s u : State lib matcher)
      → get_or s.parsers i ended ≡ p
      → p ≢ ended
      → (to_count p ≡ to_count q)
        × (to_size p ≡ to_size q)
        × (words_left matcher p ≡ words_left matcher q)
        × (regexes_left matcher p ≡ regexes_left matcher q)
      → u.parsers ≡ set s.parsers i q
      → (u.counters ≡ s.counters) × (u.taken ≡ s.taken)
      → IsCounted s
      → IsCounted u
  rests-IsCounted i p q s u e n (a, b, c, d) ps (cs, ts) h =
      let moved = λ (f : Parser → ℕ). total-set f s.parsers i p q e n in
      record {
        packets = rw (cs, ts, ps) (omega (arith, a, h.packets, moved to_count));
        bytes = rw (cs, ts, ps) (omega (arith, b, h.bytes, moved to_size));
        words = rw (cs, ts, ps) (omega (arith, c, h.words, moved (words_left matcher)));
        regexes = rw (cs, ts, ps) (omega (arith, d, h.regexes, moved (regexes_left matcher)));
        fits = subst Fits (sym cs) h.fits;
      }

  receive_packet-IsCounted :
      (i : ℕ) (o : Option (Packet × lib.Queue)) (s : State lib matcher)
      → get_or s.parsers i ended ≡ at_channel
      → IsCounted s
      → IsCounted (receive_packet lib matcher i o s)
  unfolding receive_packet to_count to_size words_left regexes_left
  receive_packet-IsCounted i none s e h =
      rests-IsCounted i at_channel at_loop s _ e (λ x. cc) (refl, refl, refl, refl) refl
        (refl, refl) h
  receive_packet-IsCounted i (some (p, q)) s e h =
      let moved =
        λ (f : Parser → ℕ). total-set f s.parsers i at_channel (uncounted p) e (λ x. cc) in
      record {
        packets = omega (arith, h.packets, moved to_count, length-append {0} s.taken (p ∷ []));
        bytes = omega (arith, h.bytes, moved to_size, sum_of-snoc (λ r. r.caplen) s.taken p);
        words =
            omega (arith, h.words, moved (words_left matcher), sum_of-snoc matcher.words s.taken p);
        regexes =
            omega (
              arith,
              h.regexes,
              moved (regexes_left matcher),
              sum_of-snoc matcher.regexes s.taken p,
            );
        fits = h.fits;
      }

  pub parser_step-IsCounted :
      (i : ℕ) (p : Parser) (s : State lib matcher)
      → get_or s.parsers i ended ≡ p
      → IsCounted s
      → IsCounted (parser_step lib matcher i p s)
  unfolding parser_step count_packet count_bytes count_word count_patterns to_count to_size
      words_left regexes_left
  parser_step-IsCounted i at_loop s e h =
      if-both IsCounted s.shutdown
        (rests-IsCounted i at_loop ended s _ e (λ x. cc) (refl, refl, refl, refl) refl (refl, refl)
          h)
        (rests-IsCounted i at_loop at_channel s _ e (λ x. cc) (refl, refl, refl, refl) refl
          (refl, refl) h)
  parser_step-IsCounted i at_channel s e h =
      receive_packet-IsCounted i (lib.wait_time s.chan_pkt) s e h
  parser_step-IsCounted i (uncounted p) s e h =
      let moved =
        λ (f : Parser → ℕ). total-set f s.parsers i (uncounted p) (unsized p) e (λ x. cc) in
      record {
        packets = omega (arith, h.packets, moved to_count);
        bytes = omega (arith, h.bytes, moved to_size);
        words = omega (arith, h.words, moved (words_left matcher));
        regexes = omega (arith, h.regexes, moved (regexes_left matcher));
        fits = (omega arith, h.fits.1, h.fits.2, h.fits.3);
      }
  parser_step-IsCounted i (unsized p) s e h =
      let moved = λ (f : Parser → ℕ).
        total-set f s.parsers i (unsized p) (matching p (matcher.words p)) e (λ x. cc) in
      record {
        packets = omega (arith, h.packets, moved to_count);
        bytes = omega (arith, h.bytes, moved to_size);
        words = omega (arith, h.words, moved (words_left matcher));
        regexes = omega (arith, h.regexes, moved (regexes_left matcher));
        fits = (h.fits.0, omega arith, h.fits.2, h.fits.3);
      }
  parser_step-IsCounted i (matching p (suc k)) s e h =
      let moved = λ (f : Parser → ℕ).
        total-set f s.parsers i (matching p (suc k)) (matching p k) e (λ x. cc) in
      record {
        packets = omega (arith, h.packets, moved to_count);
        bytes = omega (arith, h.bytes, moved to_size);
        words = omega (arith, h.words, moved (words_left matcher));
        regexes = omega (arith, h.regexes, moved (regexes_left matcher));
        fits = (h.fits.0, h.fits.1, omega arith, h.fits.3);
      }
  parser_step-IsCounted i (matching p zero) s e h =
      let moved =
        λ (f : Parser → ℕ). total-set f s.parsers i (matching p zero) (matched p) e (λ x. cc) in
      record {
        packets = omega (arith, h.packets, moved to_count);
        bytes = omega (arith, h.bytes, moved to_size);
        words = omega (arith, h.words, moved (words_left matcher));
        regexes = omega (arith, h.regexes, moved (regexes_left matcher));
        fits = (h.fits.0, h.fits.1, h.fits.2, omega arith);
      }
  parser_step-IsCounted i (matched p) s e h =
      rests-IsCounted i (matched p) at_loop s _ e (λ x. cc) (refl, refl, refl, refl) refl
        (refl, refl) h
  parser_step-IsCounted i waiting_start s e h = h
  parser_step-IsCounted i ended s e h = h

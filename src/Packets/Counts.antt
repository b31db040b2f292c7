-- ===== src/Packets/Counts.antt =====
-- The counters that the parser threads share.
use capptpl.Base.{
  All, List, Option, [], arith, get_or, none, refl, some, suc, zero, ℕ, ◌++◌, ◌∷◌, ◌≡◌,
}
use capptpl.Channel.{Channel}
use capptpl.Packets.{
  Event, Matcher, Packet, Parser, State, at_loop, begin_loop, captured, ended, initial, no_counts,
  packet_new, parser_time_ev, parser_turn, pkt_cb, queue_packet, run, start_parser, step,
  stop_parsers, timer_fired, waiting_start,
}
use capptpl.Packets.Order.{total, total-replicate, total-set}
use capptpl.Packets.Turns.{
  IsCounted, parser_step-IsCounted, regexes_left, to_count, to_size, words_left,
}

abbrev pub IsNoStart : Event → Type 0
IsNoStart (start_parser i) = ⊥
IsNoStart _ = Unit

-- Every parser thread starts, one after the other.
unfoldable pub start_all : ℕ → List Event
start_all zero = []
start_all (suc n) = start_parser n ∷ start_all n

-- A thread before its loop, or at its test, has no such number.
abbrev IsIdle : (Parser → ℕ) → Type 0
IsIdle f = (f waiting_start ≡ 0) × (f at_loop ≡ 0)

module _ (lib : Channel Packet) (matcher : Matcher) where
  queue_packet-IsCounted :
      (o : Option Packet) (s : State lib matcher)
      → IsCounted lib matcher s
      → IsCounted lib matcher (queue_packet lib matcher o s)
  unfolding queue_packet
  queue_packet-IsCounted none s h = h
  queue_packet-IsCounted (some p) s h = record {
    packets = h.packets;
    bytes = h.bytes;
    words = h.words;
    regexes = h.regexes;
    fits = h.fits;
  }

  step-IsCounted :
      (e : Event) (s : State lib matcher)
      → IsNoStart e
      → IsCounted lib matcher s
      → IsCounted lib matcher (step lib matcher e s)
  unfolding step pkt_cb parser_time_ev
  step-IsCounted (captured caplen len pktdata m d) s n h =
      queue_packet-IsCounted (packet_new caplen len pktdata m d) _ (record {
        packets = h.packets;
        bytes = h.bytes;
        words = h.words;
        regexes = h.regexes;
        fits = h.fits;
      })
  step-IsCounted (start_parser i) s n h = elim n [ ]
  step-IsCounted (parser_turn i) s n h =
      parser_step-IsCounted lib matcher i (get_or s.parsers i ended) s refl h
  step-IsCounted stop_parsers s n h = record {
    packets = h.packets;
    bytes = h.bytes;
    words = h.words;
    regexes = h.regexes;
    fits = h.fits;
  }
  step-IsCounted timer_fired s n h = record {
    packets = h.packets;
    bytes = h.bytes;
    words = h.words;
    regexes = h.regexes;
    fits = h.fits;
  }

  run-IsCounted_from :
      (es : List Event) (s : State lib matcher)
      → All IsNoStart es
      → IsCounted lib matcher s
      → IsCounted lib matcher (run lib matcher es s)
  unfolding run
  run-IsCounted_from [] s n h = h
  run-IsCounted_from (e ∷ es) s (n, ns) h =
      run-IsCounted_from es (step lib matcher e s) ns (step-IsCounted e s n h)

  -- Nothing has been taken yet, and nothing counted.
  record IsFresh (s : State lib matcher) : Type 0 where
    none_taken : s.taken ≡ []
    none_counted : s.counters ≡ no_counts
    none_left : (f : Parser → ℕ) → IsIdle f → total f s.parsers ≡ 0

  begin_loop-IsFresh :
      (i : ℕ) (p : Parser) (s : State lib matcher)
      → get_or s.parsers i ended ≡ p
      → IsFresh s
      → IsFresh (begin_loop lib matcher i p s)
  unfolding begin_loop
  begin_loop-IsFresh i waiting_start s e h = record {
    none_taken = h.none_taken;
    none_counted = refl;
    none_left = λ f (a, b). omega (
      arith,
      a,
      b,
      h.none_left f (a, b),
      total-set f s.parsers i waiting_start at_loop e (λ x. cc),
    );
  }
  begin_loop-IsFresh i _ s e h = h

  start_all-IsFresh :
      (n : ℕ) (s : State lib matcher) → IsFresh s → IsFresh (run lib matcher (start_all n) s)
  unfolding run step start_all
  start_all-IsFresh zero s h = h
  start_all-IsFresh (suc n) s h =
      start_all-IsFresh n _ (begin_loop-IsFresh n (get_or s.parsers n ended) s refl h)

  IsFresh-IsCounted : (s : State lib matcher) → IsFresh s → IsCounted lib matcher s
  unfolding to_count to_size words_left regexes_left
  IsFresh-IsCounted s h =
      let t = h.none_taken in
      let c = h.none_counted in
      let none = h.none_left in
      record {
        packets = rw (t, c) (omega (arith, none to_count (refl, refl)));
        bytes = rw (t, c) (omega (arith, none to_size (refl, refl)));
        words = rw (t, c) (omega (arith, none (words_left matcher) (refl, refl)));
        regexes = rw (t, c) (omega (arith, none (regexes_left matcher) (refl, refl)));
        fits = rw c (omega arith, omega arith, omega arith, omega arith);
      }

  run-append :
      (es fs : List Event) (s : State lib matcher)
      → run lib matcher (es ++ fs) s ≡ run lib matcher fs (run lib matcher es s)
  unfolding run
  run-append [] fs s = refl
  run-append (e ∷ es) fs s = run-append es fs (step lib matcher e s)

  initial-IsFresh : (n : ℕ) → IsFresh (initial lib matcher n)
  unfolding initial
  initial-IsFresh n = record {
    none_taken = refl;
    none_counted = refl;
    none_left = λ f (a, b). total-replicate f n a;
  }

  -- If every parser thread has started before the first other step, then at any later moment, and
  -- modulo 2 ^ 64: each shared counter, with what the threads have still to add to it for the
  -- packets that they have, is the number of the packets that any thread has taken, their captured
  -- bytes, the words found in them and the regular expressions that match them.
  pub run_packets-IsCounted :
      (n : ℕ) (es : List Event)
      → All IsNoStart es
      → IsCounted lib matcher (run lib matcher (start_all n ++ es) (initial lib matcher n))
  run_packets-IsCounted n es h = rw (run-append (start_all n) es (initial lib matcher n)) (
      run-IsCounted_from es _ h
        (IsFresh-IsCounted _ (start_all-IsFresh n (initial lib matcher n) (initial-IsFresh n))))

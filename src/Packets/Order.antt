-- ===== src/Packets/Order.antt =====
-- No packet is lost, repeated or leaked by any number of parser threads, whatever the schedule.
use capptpl.Base.{
  List, Option, [], ap, append_assoc, arith, get_or, if-both, length, length-append, none, refl,
  replicate, set, some, suc, sym, zero, ℕ, ◌++◌, ◌+◌, ◌∙◌, ◌∷◌, ◌≡◌, ◌≢◌,
}
use capptpl.Channel.{Channel}
use capptpl.Packets.{
  Event, Matcher, Packet, Parser, State, at_channel, at_loop, begin_loop, captured, ended, initial,
  matched, matching, packet_new, parser_step, parser_time_ev, parser_turn, pkt_cb, queue_packet,
  receive_packet, run, start_parser, step, stop_parsers, timer_fired, uncounted, unsized,
  waiting_start,
}

abbrev pub sum_of : (Packet → ℕ) → List Packet → ℕ
sum_of f [] = 0
sum_of f (p ∷ ps) = f p + sum_of f ps

pub sum_of-snoc :
    (f : Packet → ℕ) (ps : List Packet) (p : Packet) → sum_of f (ps ++ p ∷ []) ≡ sum_of f ps + f p
sum_of-snoc f [] p = omega arith
sum_of-snoc f (q ∷ ps) p = omega (arith, sum_of-snoc f ps p)

-- What a number that belongs to a thread is for all of them.
unfoldable pub total : (Parser → ℕ) → List Parser → ℕ
total f [] = 0
total f (p ∷ ps) = f p + total f ps

pub total-set :
    (f : Parser → ℕ) (ps : List Parser) (i : ℕ) (p q : Parser)
    → get_or ps i ended ≡ p
    → p ≢ ended
    → f p + total f (set ps i q) ≡ f q + total f ps
unfolding total
total-set f [] i p q e h = absurd (h (sym e))
total-set f (r ∷ ps) zero p q e h = omega (arith, ap f e)
total-set f (r ∷ ps) (suc i) p q e h = omega (arith, total-set f ps i p q e h)

pub total-replicate :
    (f : Parser → ℕ) (n : ℕ) → f waiting_start ≡ 0 → total f (replicate n waiting_start) ≡ 0
unfolding total
total-replicate f zero z = refl
total-replicate f (suc n) z = omega (arith, z, total-replicate f n z)

-- `f` of the packet that a thread has.
unfoldable pub carried : (Packet → ℕ) → Parser → ℕ
carried f (uncounted p) = f p
carried f (unsized p) = f p
carried f (matching p k) = f p
carried f (matched p) = f p
carried f _ = 0

module _ (lib : Channel Packet) (matcher : Matcher) where
  open lib use {contents}

  pub record IsSound (s : State lib matcher) : Type 0 where
    pub in_order : s.taken ++ contents s.chan_pkt ≡ s.sent
    pub in_memory : s.memory ≡ length (contents s.chan_pkt) + total (carried (λ p. 1)) s.parsers
    pub kept :
        (f : Packet → ℕ) → sum_of f s.handled + total (carried f) s.parsers ≡ sum_of f s.taken

  initial-IsSound : (n : ℕ) → IsSound (initial lib matcher n)
  unfolding initial carried
  initial-IsSound n = record {
    in_order = lib.new_is_empty;
    in_memory =
        omega (arith, ap length lib.new_is_empty, total-replicate (carried (λ p. 1)) n refl);
    kept = λ f. omega (arith, total-replicate (carried f) n refl);
  }

  queue_packet-IsSound :
      (o : Option Packet) (s : State lib matcher)
      → IsSound s
      → IsSound (queue_packet lib matcher o s)
  unfolding queue_packet
  queue_packet-IsSound none s h = h
  queue_packet-IsSound (some p) s h =
      let grown = lib.send_appends p s.chan_pkt in
      record {
        in_order = rw grown (rw (← append_assoc) (ap (λ l. l ++ p ∷ []) h.in_order));
        in_memory =
            rw grown (omega (arith, h.in_memory, length-append {0} (contents s.chan_pkt) (p ∷ [])));
        kept = h.kept;
      }

  -- A thread goes on with what it has.
  goes_on-IsSound :
      (i : ℕ) (p q : Parser) (s u : State lib matcher)
      → get_or s.parsers i ended ≡ p
      → p ≢ ended
      → ((f : Packet → ℕ) → carried f p ≡ carried f q)
      → u.parsers ≡ set s.parsers i q
      → (u.sent ≡ s.sent)
        × (u.taken ≡ s.taken)
        × (u.handled ≡ s.handled)
        × (u.memory ≡ s.memory)
        × (u.chan_pkt ≡ s.chan_pkt)
      → IsSound s
      → IsSound u
  goes_on-IsSound i p q s u e n same ps (a, b, c, d, k) h = record {
    in_order = simp (a, b, k, h.in_order);
    in_memory =
        d
        ∙ omega (
          arith,
          h.in_memory,
          ap (λ r. length (contents r)) k,
          ap (total (carried (λ r. 1))) ps,
          same (λ r. 1),
          total-set (carried (λ r. 1)) s.parsers i p q e n,
        );
    kept = λ f. omega (
      arith,
      h.kept f,
      ap (sum_of f) b,
      ap (sum_of f) c,
      ap (total (carried f)) ps,
      same f,
      total-set (carried f) s.parsers i p q e n,
    );
  }

  begin_loop-IsSound :
      (i : ℕ) (p : Parser) (s : State lib matcher)
      → get_or s.parsers i ended ≡ p
      → IsSound s
      → IsSound (begin_loop lib matcher i p s)
  unfolding begin_loop carried
  begin_loop-IsSound i waiting_start s e h =
      goes_on-IsSound i waiting_start at_loop s _ e (λ x. cc) (λ f. refl) refl
        (refl, refl, refl, refl, refl) h
  begin_loop-IsSound i _ s e h = h

  receive_packet-IsSound :
      (i : ℕ) (o : Option (Packet × lib.Queue)) (s : State lib matcher)
      → lib.wait_time s.chan_pkt ≡ o
      → get_or s.parsers i ended ≡ at_channel
      → IsSound s
      → IsSound (receive_packet lib matcher i o s)
  unfolding receive_packet carried
  receive_packet-IsSound i none s w e h =
      goes_on-IsSound i at_channel at_loop s _ e (λ x. cc) (λ f. refl) refl
        (refl, refl, refl, refl, refl) h
  receive_packet-IsSound i (some (p, q)) s w e h =
      let first = lib.wait_takes s.chan_pkt p q w in
      record {
        in_order = rw append_assoc (rw (← first) h.in_order);
        in_memory = omega (
          arith,
          h.in_memory,
          ap length first,
          total-set (carried (λ r. 1)) s.parsers i at_channel (uncounted p) e (λ x. cc),
        );
        kept = λ f. omega (
          arith,
          h.kept f,
          sum_of-snoc f s.taken p,
          total-set (carried f) s.parsers i at_channel (uncounted p) e (λ x. cc),
        );
      }

  parser_step-IsSound :
      (i : ℕ) (p : Parser) (s : State lib matcher)
      → get_or s.parsers i ended ≡ p
      → IsSound s
      → IsSound (parser_step lib matcher i p s)
  unfolding parser_step carried
  parser_step-IsSound i at_loop s e h =
      if-both IsSound s.shutdown
        (goes_on-IsSound i at_loop ended s _ e (λ x. cc) (λ f. refl) refl
          (refl, refl, refl, refl, refl) h)
        (goes_on-IsSound i at_loop at_channel s _ e (λ x. cc) (λ f. refl) refl
          (refl, refl, refl, refl, refl) h)
  parser_step-IsSound i at_channel s e h =
      receive_packet-IsSound i (lib.wait_time s.chan_pkt) s refl e h
  parser_step-IsSound i (uncounted p) s e h =
      goes_on-IsSound i (uncounted p) (unsized p) s _ e (λ x. cc) (λ f. refl) refl
        (refl, refl, refl, refl, refl) h
  parser_step-IsSound i (unsized p) s e h =
      goes_on-IsSound i (unsized p) (matching p (matcher.words p)) s _ e (λ x. cc) (λ f. refl) refl
        (refl, refl, refl, refl, refl) h
  parser_step-IsSound i (matching p (suc k)) s e h =
      goes_on-IsSound i (matching p (suc k)) (matching p k) s _ e (λ x. cc) (λ f. refl) refl
        (refl, refl, refl, refl, refl) h
  parser_step-IsSound i (matching p zero) s e h =
      goes_on-IsSound i (matching p 0) (matched p) s _ e (λ x. cc) (λ f. refl) refl
        (refl, refl, refl, refl, refl) h
  parser_step-IsSound i (matched p) s e h = record {
    in_order = h.in_order;
    in_memory = omega (
      arith,
      h.in_memory,
      total-set (carried (λ r. 1)) s.parsers i (matched p) at_loop e (λ x. cc),
    );
    kept = λ f. omega (
      arith,
      h.kept f,
      sum_of-snoc f s.handled p,
      total-set (carried f) s.parsers i (matched p) at_loop e (λ x. cc),
    );
  }
  parser_step-IsSound i waiting_start s e h = h
  parser_step-IsSound i ended s e h = h

  step-IsSound : (e : Event) (s : State lib matcher) → IsSound s → IsSound (step lib matcher e s)
  unfolding step pkt_cb parser_time_ev
  step-IsSound (captured caplen len pktdata m d) s h =
      queue_packet-IsSound (packet_new caplen len pktdata m d) _
        (record { in_order = h.in_order; in_memory = h.in_memory; kept = h.kept })
  step-IsSound (start_parser i) s h = begin_loop-IsSound i (get_or s.parsers i ended) s refl h
  step-IsSound (parser_turn i) s h = parser_step-IsSound i (get_or s.parsers i ended) s refl h
  step-IsSound stop_parsers s h = record {
    in_order = h.in_order;
    in_memory = h.in_memory;
    kept = h.kept;
  }
  step-IsSound timer_fired s h = record {
    in_order = h.in_order;
    in_memory = h.in_memory;
    kept = h.kept;
  }

  pub run-IsSound_from :
      (es : List Event) (s : State lib matcher) → IsSound s → IsSound (run lib matcher es s)
  unfolding run
  run-IsSound_from [] s h = h
  run-IsSound_from (e ∷ es) s h = run-IsSound_from es (step lib matcher e s) (step-IsSound e s h)

  -- For any number of parser threads and any schedule of them, of libpcap and of the main thread,
  -- between the calls of `pkt_cb`: the packets taken from the channel and those in it are the
  -- packets sent, in the order in which they were sent; as many packets are allocated as are in the
  -- channel or with a thread; and the packets taken are the packets handled and those that the
  -- threads have, each as often, since any sum over the former is the sum over the latter.
  pub run_packets-IsSound :
      (n : ℕ) (es : List Event) → IsSound (run lib matcher es (initial lib matcher n))
  run_packets-IsSound n es = run-IsSound_from es (initial lib matcher n) (initial-IsSound n)

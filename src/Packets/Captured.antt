-- ===== src/Packets/Captured.antt =====
-- The counters of `pkt_cb` (apptpl/capture.c).
use capptpl.Base.{
  Bool, Bytes, List, Option, [], arith, get_or, if-both, none, refl, some, suc, true, zero, ℕ, ◌%◌,
  ◌+◌, ◌∙◌, ◌∷◌, ◌≡◌,
}
use capptpl.Channel.{Channel}
use capptpl.Packets.{
  Event, Matcher, Packet, Parser, State, at_channel, at_loop, begin_loop, captured, ended, initial,
  matching, packet_new, parser_step, parser_time_ev, parser_turn, pkt_cb, queue_packet,
  receive_packet, run, start_parser, step, stop_parsers, timer_fired, timer_seconds, u64,
  waiting_start,
}

module _ (lib : Channel Packet) (matcher : Matcher) where
  queue_packet-counters :
      (o : Option Packet) (s : State lib matcher)
      → ((queue_packet lib matcher o s).pkts ≡ s.pkts)
        × ((queue_packet lib matcher o s).bytes ≡ s.bytes)
  unfolding queue_packet
  queue_packet-counters none s = (refl, refl)
  queue_packet-counters (some p) s = (refl, refl)

-- How often libpcap calls back, and the bytes that it has captured.
abbrev pub captures : List Event → ℕ
captures [] = 0
captures (captured caplen len pktdata malloc_ok sds_ok ∷ es) = suc (captures es)
captures (_ ∷ es) = captures es

abbrev pub captured_bytes : List Event → ℕ
captured_bytes [] = 0
captured_bytes (captured caplen len pktdata malloc_ok sds_ok ∷ es) = caplen + captured_bytes es
captured_bytes (_ ∷ es) = captured_bytes es

module _ (lib : Channel Packet) (matcher : Matcher) where
  -- Nothing that is not a callback counts.
  receive_packet-counters :
      (i : ℕ) (o : Option (Packet × lib.Queue)) (s : State lib matcher)
      → ((receive_packet lib matcher i o s).pkts ≡ s.pkts)
        × ((receive_packet lib matcher i o s).bytes ≡ s.bytes)
  unfolding receive_packet
  receive_packet-counters i none s = (refl, refl)
  receive_packet-counters i (some (p, q)) s = (refl, refl)

  -- The counters of `s`.
  abbrev Same : State lib matcher → State lib matcher → Type 0
  Same s u = (u.pkts ≡ s.pkts) × (u.bytes ≡ s.bytes)

  begin_loop-Same :
      (i : ℕ) (p : Parser) (s : State lib matcher) → Same s (begin_loop lib matcher i p s)
  unfolding begin_loop
  begin_loop-Same i waiting_start s = (refl, refl)
  begin_loop-Same i _ s = (refl, refl)

  parser_step-Same :
      (i : ℕ) (p : Parser) (s : State lib matcher) → Same s (parser_step lib matcher i p s)
  unfolding parser_step
  parser_step-Same i at_loop s = if-both (Same s) s.shutdown (refl, refl) (refl, refl)
  parser_step-Same i at_channel s = receive_packet-counters i (lib.wait_time s.chan_pkt) s
  parser_step-Same i (matching p (suc k)) s = (refl, refl)
  parser_step-Same i (matching p zero) s = (refl, refl)
  parser_step-Same i _ s = (refl, refl)

  -- The counters of `s` are `n` packets and `b` bytes.
  abbrev Holds : ℕ → ℕ → State lib matcher → Type 0
  Holds n b s = (s.pkts ≡ n % u64) × (s.bytes ≡ b % u64)

  pkt_cb-Holds :
      (n b caplen len : ℕ) (pktdata : Bytes) (malloc_ok sds_ok : Bool) (s : State lib matcher)
      → Holds n b s
      → Holds (n + 1) (b + caplen) (pkt_cb lib matcher caplen len pktdata malloc_ok sds_ok s)
  unfolding pkt_cb
  pkt_cb-Holds n b caplen len pktdata malloc_ok sds_ok s (p, q) =
      let same =
        queue_packet-counters lib matcher (packet_new caplen len pktdata malloc_ok sds_ok)
          (record s { pkts = (s.pkts + 1) % u64; bytes = (s.bytes + caplen) % u64 }) in
      (omega (arith, same.0, p), omega (arith, same.1, q))

  Holds-Same : (n b : ℕ) (s u : State lib matcher) → Same s u → Holds n b s → Holds n b u
  Holds-Same n b s u (e, f) (p, q) = (e ∙ p, f ∙ q)

  run-Holds :
      (es : List Event) (n b : ℕ) (s : State lib matcher)
      → Holds n b s
      → Holds (captures es + n) (captured_bytes es + b) (run lib matcher es s)
  unfolding run step parser_time_ev
  run-Holds [] n b s (p, q) = (omega (arith, p), omega (arith, q))
  run-Holds (captured caplen len pktdata malloc_ok sds_ok ∷ es) n b s h =
      let u = pkt_cb lib matcher caplen len pktdata malloc_ok sds_ok s in
      let next = pkt_cb-Holds n b caplen len pktdata malloc_ok sds_ok s h in
      let (p, q) = run-Holds es (n + 1) (b + caplen) u next in (omega (arith, p), omega (arith, q))
  run-Holds (start_parser i ∷ es) n b s h =
      let u = begin_loop lib matcher i (get_or s.parsers i ended) s in
      run-Holds es n b u (Holds-Same n b s u (begin_loop-Same i (get_or s.parsers i ended) s) h)
  run-Holds (parser_turn i ∷ es) n b s h =
      let u = parser_step lib matcher i (get_or s.parsers i ended) s in
      run-Holds es n b u (Holds-Same n b s u (parser_step-Same i (get_or s.parsers i ended) s) h)
  run-Holds (stop_parsers ∷ es) n b s h = run-Holds es n b (record s { shutdown = true }) h
  run-Holds (timer_fired ∷ es) n b s h =
      run-Holds es n b (record s { timer_interval = timer_seconds }) h

  -- Whatever the schedule, the capture's counters are the number of calls of `pkt_cb` and the bytes
  -- captured in them, modulo 2 ^ 64; a packet for which there is no memory is counted as well.
  pub run_packets-captured :
      (threads : ℕ) (es : List Event)
      → let s = run lib matcher es (initial lib matcher threads) in
        (s.pkts ≡ captures es % u64) × (s.bytes ≡ captured_bytes es % u64)
  unfolding initial
  run_packets-captured threads es =
      let (p, q) = run-Holds es 0 0 (initial lib matcher threads) (refl, refl) in
      (omega (arith, p), omega (arith, q))

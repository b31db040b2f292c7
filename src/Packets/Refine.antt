-- ===== src/Packets/Refine.antt =====
-- The capture's callback, the channel and all the parser threads together are a pipe.
use mathlib.Core.Path.{subst}
use capptpl.Base.{
  List, Option, [], get_or, if-both, none, refl, some, suc, sym, zero, ℕ, ◌%◌, ◌++◌, ◌+◌, ◌∷◌, ◌≡◌,
}
use capptpl.Channel.{Channel}
use capptpl.Channel.Pipe.{Moves, Moves-trans, Pipe, accept, deliver, still}
use capptpl.Packets.{
  Event, Matcher, Packet, Parser, State, at_channel, at_loop, begin_loop, captured, ended, matching,
  packet_new, parser_step, parser_time_ev, parser_turn, pkt_cb, queue_packet, receive_packet, run,
  start_parser, step, stop_parsers, timer_fired, u64, waiting_start,
}

module _ (lib : Channel Packet) (matcher : Matcher) where
  open lib use {Queue, contents, wait_time}

  -- What a pipe shows of the state: a packet is delivered when a thread takes it.
  unfoldable pub view : State lib matcher → Pipe Packet
  view s = record { accepted = s.sent; waiting = contents s.chan_pkt; delivered = s.taken }

  queue_packet-Moves :
      (o : Option Packet) (s : State lib matcher)
      → Moves (view s) (view (queue_packet lib matcher o s))
  unfolding queue_packet view
  queue_packet-Moves none s = still
  queue_packet-Moves (some p) s =
      subst (λ w. Moves (view s) (record (view s) { accepted = s.sent ++ p ∷ []; waiting = w }))
        (sym (lib.send_appends p s.chan_pkt)) (accept p still)

  receive_packet-Moves :
      (i : ℕ) (o : Option (Packet × Queue)) (s : State lib matcher)
      → wait_time s.chan_pkt ≡ o
      → Moves (view s) (view (receive_packet lib matcher i o s))
  unfolding receive_packet view
  receive_packet-Moves i none s e = still
  receive_packet-Moves i (some (p, q)) s e =
      deliver p (contents q) (lib.wait_takes s.chan_pkt p q e) still

  begin_loop-Moves :
      (i : ℕ) (p : Parser) (s : State lib matcher)
      → Moves (view s) (view (begin_loop lib matcher i p s))
  unfolding begin_loop view
  begin_loop-Moves i waiting_start s = still
  begin_loop-Moves i _ s = still

  parser_step-Moves :
      (i : ℕ) (p : Parser) (s : State lib matcher)
      → Moves (view s) (view (parser_step lib matcher i p s))
  unfolding parser_step view
  parser_step-Moves i at_loop s = if-both (λ u. Moves (view s) (view u)) s.shutdown still still
  parser_step-Moves i at_channel s = receive_packet-Moves i (wait_time s.chan_pkt) s refl
  parser_step-Moves i (matching p (suc k)) s = still
  parser_step-Moves i (matching p zero) s = still
  parser_step-Moves i _ s = still

  step-Moves : (e : Event) (s : State lib matcher) → Moves (view s) (view (step lib matcher e s))
  unfolding step pkt_cb view parser_time_ev
  step-Moves (captured caplen len pktdata m d) s =
      queue_packet-Moves (packet_new caplen len pktdata m d)
        (record s { pkts = (s.pkts + 1) % u64; bytes = (s.bytes + caplen) % u64 })
  step-Moves (start_parser i) s = begin_loop-Moves i (get_or s.parsers i ended) s
  step-Moves (parser_turn i) s = parser_step-Moves i (get_or s.parsers i ended) s
  step-Moves stop_parsers s = still
  step-Moves timer_fired s = still

  -- The callback, the channel and any number of parser threads implement one pipe: in every
  -- schedule, from every state and for every channel, what has been sent, what waits in the channel
  -- and what has been taken change only by accepting a packet at the end or delivering the first
  -- one.
  pub run_packets-Moves :
      (es : List Event) (s : State lib matcher) → Moves (view s) (view (run lib matcher es s))
  unfolding run
  run_packets-Moves [] s = still
  run_packets-Moves (e ∷ es) s =
      Moves-trans (step-Moves e s) (run_packets-Moves es (step lib matcher e s))

-- ===== src/Capture/Loop.antt =====
-- apptpl/capture.c: `capture_loop`. A round is one call of `pcap_dispatch`, which calls back for
-- some packets; the main thread may set `shutdown` while it runs. What happens to a packet behind
-- the counters is in Packets.
pub mod Outcome
use capptpl.Base.{Bool, List, Option, [], false, if◌then◌else◌, none, some, ℕ, ◌%◌, ◌+◌, ◌^◌, ◌∷◌}
use capptpl.Capture.{Capture, Stats, capture_loop_stop, capture_stats}
use capptpl.Regex.Load.{failed}

-- The captured lengths of the packets of a round, whether `capture_loop_stop` is called in it, and
-- whether it returns -1.
pub record Round : Type 0 where
  pub caplens : List ℕ
  pub stopped : Bool
  pub failed : Bool

-- The counters of `pkt_cb`, which are `uint64_t`.
unfoldable pub count_captured : ℕ → Capture → Capture
count_captured caplen c = record c {
  pkts = (c.pkts + 1) % 2 ^ 64;
  bytes = (c.bytes + caplen) % 2 ^ 64;
}

unfoldable pub call_backs : List ℕ → Capture → Capture
unfolding count_captured
call_backs [] c = c
call_backs (n ∷ ns) c = call_backs ns (count_captured n c)

unfoldable pub dispatch : Round → Capture → Capture
unfolding call_backs capture_loop_stop
dispatch r c = let c' = call_backs r.caplens c in if r.stopped then capture_loop_stop c' else c'

-- The loop; `none` says that the rounds are over and it has not ended.
unfoldable pub capture_rounds : List Round → Capture → Option Capture
unfolding dispatch
capture_rounds [] c = if c.shutdown then some c else none
capture_rounds (r ∷ rs) c =
    let c' = dispatch r c in
    let rest = capture_rounds rs c' in
    if c.shutdown then some c else if r.failed then some c' else rest

-- The whole thread, with what `pcap_stats` answers at its end.
unfoldable pub capture_loop : Option Stats → List Round → Capture → Option Capture
unfolding capture_rounds capture_stats
capture_loop answer rs c =
    elim (capture_rounds rs (record c { shutdown = false; pkts = 0; bytes = 0 })) [
      | none ↦ none
      | some c' ↦ some (capture_stats answer c').1
    ]

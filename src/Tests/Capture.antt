-- ===== src/Tests/Capture.antt =====
-- The capture handle at concrete answers of libpcap, and the capture's thread.
use mathlib.Core.Option
use capptpl.Base.{List, [], codes, false, none, refl, some, true, ◌∷◌, ◌≡◌, ◌⊎◌}
use capptpl.Base.Int.{pos}
use capptpl.Capture.{
  Answers, Capture, Settings, capture_close, capture_loop_stop, capture_open, capture_stats,
}
use capptpl.Capture.Loop.{Round, call_backs, capture_loop, capture_rounds, count_captured, dispatch}
use capptpl.Capture.Loop.Outcome.{capture_loop_lem, ending_rounds, left_behind}
use capptpl.Capture.Open.{
  IsClosed, Opens, capture_open_cases, capture_close_lem, capture_open-Opens, capture_open-eq-none,
  compile_fails, held,
}

abbrev port_80 : Settings
port_80 = record {
  device = codes "eth0";
  snaplen = pos 2048;
  buffer_size = pos 16;
  filter = codes "tcp port 80";
}

abbrev all_good : Answers
all_good = record {
  create_ok = true;
  activate_ok = true;
  malloc_ok = true;
  compile_ok = true;
  setfilter_ok = true;
  datalink = 1;
}

abbrev not_compiled : Answers
not_compiled = record all_good { compile_ok = false }

abbrev closed : Capture
closed = record {
  device = [];
  filter = [];
  snaplen = pos 0;
  buffer_size = pos 0;
  shutdown = false;
  pkts = 0;
  bytes = 0;
  ps = record { ps_recv = 0; ps_drop = 0; ps_ifdrop = 0 };
  handle = false;
  bpf = false;
}

abbrev opened : Capture
opened = record closed { handle = true; bpf = true }

opened_with_filter : Opens port_80 closed (capture_open port_80 all_good closed [])
unfolding compile_fails
opened_with_filter = capture_open-Opens port_80 all_good closed (refl, refl) refl

filter_not_compiled : capture_open port_80 not_compiled closed [] ≡ none
unfolding compile_fails
filter_not_compiled = capture_open-eq-none port_80 not_compiled closed (refl, refl) refl

opened_closes :
    (c' : Capture) × (capture_close opened (held opened) ≡ some (c', []))
    × IsClosed c'
    × (capture_close c' [] ≡ some (c', []))
opened_closes = capture_close_lem opened

abbrev two_rounds : List Round
two_rounds =
    record { caplens = 60 ∷ 40 ∷ []; stopped = false; failed = false }
    ∷ record { caplens = 7 ∷ []; stopped = true; failed = false }
    ∷ record { caplens = 9 ∷ []; stopped = false; failed = false }
    ∷ []

two_rounds_lem :
    capture_loop none two_rounds opened
    ≡ some (record opened { shutdown = true; pkts = 3; bytes = 107 })
unfolding capture_loop capture_rounds dispatch call_backs count_captured capture_loop_stop
    capture_stats
two_rounds_lem = refl

capture_loop_lem_example :
    capture_loop none two_rounds opened
    ≡ Option.map (left_behind none opened) (ending_rounds two_rounds)
capture_loop_lem_example = capture_loop_lem none two_rounds opened refl

capture_open_cases_example :
    ((compile_fails port_80 not_compiled ≡ true)
      × (capture_open port_80 not_compiled closed [] ≡ none))
    ⊎ ((compile_fails port_80 not_compiled ≡ false)
        × Opens port_80 closed (capture_open port_80 not_compiled closed []))
capture_open_cases_example = capture_open_cases port_80 not_compiled closed (refl, refl)

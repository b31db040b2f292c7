-- ===== src/Http/Loop.antt =====
-- apptpl/magt.c, `magt_loop` and the callbacks that it runs: libevent calls back for requests, for
-- signals and for the timer, one after the other.
pub mod Served
use capptpl.Base.{Bool, Bytes, List, [], false, if◌then◌else◌, some, ℕ, ◌++◌, ◌==◌, ◌||◌, ◌∷◌}
use capptpl.Base.Ledger.{M, pure, ◌>>=◌}
use capptpl.Http.{App, Lib, Method, Reply, Resource, Route}
use capptpl.Http.Handle.{api_handler}
use capptpl.Packets.{timer_seconds}

-- What happens, in its order; with a request stands what the threads have made of `struct app` by
-- then. A signal has libevent's flags and its number.
pub data LoopEvent : Type 0 where
  request : Method → Bytes → App → LoopEvent
  signal : ℕ → ℕ → LoopEvent
  timer : LoopEvent

-- `EV_SIGNAL`, `SIGINT` and `SIGTERM`. Whether it ends the loop.
unfoldable pub signal_cb : ℕ → ℕ → Bool
signal_cb event fd = if event == 8 then fd == 2 || fd == 15 else false

-- What is sent, and the last value that `timer_cb` has given to `parser_time_ev`.
unfoldable pub magt_loop : Lib → List Route → List LoopEvent → ℕ → M Resource (List Reply × ℕ)
unfolding signal_cb api_handler
magt_loop lib routes [] interval live = some (([], interval), live)
magt_loop lib routes (timer ∷ es) interval live = magt_loop lib routes es timer_seconds live
magt_loop lib routes (signal event fd ∷ es) interval live =
    let rest = magt_loop lib routes es interval live in
    if signal_cb event fd then some (([], interval), live) else rest
magt_loop lib routes (request m uri app ∷ es) interval live =
    (api_handler lib routes m uri app >>= λ sent.
    magt_loop lib routes es interval >>= λ rest. pure (sent.1 ++ rest.0, rest.1))
      live

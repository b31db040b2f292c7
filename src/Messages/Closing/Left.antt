-- ===== src/Messages/Closing/Left.antt =====
-- What the end of `main` (apptpl/main.c) leaves of the messages.
use capptpl.Base.{Bytes, false, length, ◌++◌, ◌+◌, ◌≡◌, ◌≤◌}
use capptpl.Channel.{Channel}
use capptpl.Messages.{Threads}
use capptpl.Messages.Order.{one}

module _ (lib : Channel Bytes) where
  open lib use {contents}

  -- The end of the two threads: main has told the inputer to stop in the state `t` and the worker in
  -- the state `m`, and `u` is what is left.
  pub record Closes (t m u : Threads lib) : Type 0 where
    pub inputer_joined : m.inputer_running ≡ false
    pub worker_joined : u.worker_running ≡ false
    pub few_arrived : length u.arrived ≤ length t.arrived + one t.inputer_waiting
    pub few_handled : length u.handled ≤ length m.handled + one m.worker_waiting
    pub in_order : u.handled ++ contents u.chan_msg ≡ u.arrived
    pub not_freed : u.memory ≡ length (contents u.chan_msg)

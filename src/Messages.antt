-- ===== src/Messages.antt =====
-- apptpl/inputer.c and apptpl/worker.c: the thread that receives messages and the thread that
-- handles them, with the channel between them.
-- A thread is stepped from one access to what the threads share to the next: the test of its loop
-- with the allocation, the call in which it waits, the end of a message. What zmq answers is part of
-- the schedule, and so is the moment at which the main thread sets a `shutdown` flag. A count and the
-- call of the channel that it is for are one step. `memory` is the number of `zmq_msg_t` that
-- are allocated.
pub mod Closing
pub mod Refine
pub mod Stop
pub mod Counts
pub mod Order
use capptpl.Base.{
  Bool, Bytes, List, Option, [], false, if◌then◌else◌, none, some, true, ℕ, ◌%◌, ◌++◌, ◌+◌, ◌-◌,
  ◌^◌, ◌∷◌,
}
use capptpl.Channel.{Channel}

-- A count is a `uint64_t`.
abbrev pub u64 : ℕ
u64 = 2 ^ 64

-- What the calls of a round of `inputer_loop` answer.
pub data Arrival : Type 0 where
  malloc_failed : Arrival
  init_failed : Arrival
  receive_timeout : Arrival
  receive_failed : Arrival
  received : Bytes → Arrival

pub data Event : Type 0 where
  start_inputer start_worker stop_inputer stop_worker : Event
  inputer_round : Arrival → Event
  worker_round : Event

module _ (lib : Channel Bytes) where
  open lib use {Queue, send, wait_time}

  -- `struct inputer`, `struct worker` and the channel; `running` is true while the thread is in
  -- its loop. `inputer_waiting`: it is in `zmq_msg_recv`, with a message that it has allocated.
  -- `worker_waiting`: it is in `cchan_waittime`; `worker_holding`: it has a message to free. `arrived`
  -- and `handled` record the messages that have been counted, in their order.
  pub record Threads : Type 0 where
    pub inputer_shutdown : Bool
    pub inputer_running : Bool
    pub inputer_waiting : Bool
    pub inputer_count : ℕ
    pub worker_shutdown : Bool
    pub worker_running : Bool
    pub worker_waiting : Bool
    pub worker_holding : Bool
    pub worker_count : ℕ
    pub chan_msg : Queue
    pub memory : ℕ
    pub arrived : List Bytes
    pub handled : List Bytes

  -- What `main` sets up before the threads start.
  unfoldable pub initial : Threads
  initial = record {
    inputer_shutdown = false;
    inputer_running = false;
    inputer_waiting = false;
    inputer_count = 0;
    worker_shutdown = false;
    worker_running = false;
    worker_waiting = false;
    worker_holding = false;
    worker_count = 0;
    chan_msg = lib.new;
    memory = 0;
    arrived = [];
    handled = [];
  }

  -- `malloc` and `zmq_msg_init`; where the latter fails the message is freed again.
  unfoldable pub allocate_message : Arrival → Threads → Threads
  allocate_message malloc_failed t = record t { inputer_running = false }
  allocate_message init_failed t = record t { memory = t.memory + 1 - 1 }
  allocate_message _ t = record t { memory = t.memory + 1; inputer_waiting = true }

  -- From the return of `zmq_msg_recv` on; what is no answer of it counts as a timeout.
  unfoldable pub receive_message : Arrival → Threads → Threads
  receive_message (received m) t = record t {
    inputer_waiting = false;
    inputer_count = (t.inputer_count + 1) % u64;
    chan_msg = send m t.chan_msg;
    arrived = t.arrived ++ m ∷ [];
  }
  receive_message receive_failed t = record t {
    inputer_waiting = false;
    memory = t.memory - 1;
    inputer_running = false;
  }
  receive_message _ t = record t { inputer_waiting = false; memory = t.memory - 1 }

  unfoldable pub inputer_step : Arrival → Threads → Threads
  unfolding allocate_message receive_message
  inputer_step a t =
      if t.inputer_running
      then if t.inputer_waiting
        then receive_message a t
        else if t.inputer_shutdown
        then record t { inputer_running = false }
        else allocate_message a t
      else t

  -- `cchan_waittime` has returned.
  unfoldable pub handle_message : Option (Bytes × Queue) → Threads → Threads
  handle_message none t = record t { worker_waiting = false }
  handle_message (some (m, q)) t = record t {
    worker_waiting = false;
    worker_holding = true;
    worker_count = (t.worker_count + 1) % u64;
    chan_msg = q;
    handled = t.handled ++ m ∷ [];
  }

  -- `zmq_msg_close` and `free`.
  unfoldable pub free_message : Threads → Threads
  free_message t = record t { worker_holding = false; memory = t.memory - 1 }

  unfoldable pub worker_step : Threads → Threads
  unfolding handle_message free_message
  worker_step t =
      if t.worker_running
      then if t.worker_holding
        then free_message t
        else if t.worker_waiting
        then handle_message (wait_time t.chan_msg) t
        else if t.worker_shutdown
        then record t { worker_running = false }
        else record t { worker_waiting = true }
      else t

  -- The assignments at the start of a loop, and those of `main`.
  unfoldable pub step : Event → Threads → Threads
  unfolding inputer_step worker_step
  step start_inputer t = record t {
    inputer_running = true;
    inputer_shutdown = false;
    inputer_count = 0;
  }
  step start_worker t = record t {
    worker_running = true;
    worker_shutdown = false;
    worker_count = 0;
  }
  step stop_inputer t = record t { inputer_shutdown = true }
  step stop_worker t = record t { worker_shutdown = true }
  step (inputer_round a) t = inputer_step a t
  step worker_round t = worker_step t

  unfoldable pub run : List Event → Threads → Threads
  unfolding step
  run [] t = t
  run (e ∷ es) t = run es (step e t)

-- ===== src/Messages/Order.antt =====
-- No schedule loses, repeats or reorders a message, or leaks one's memory.
use capptpl.Base.{
  Bool, Bytes, List, Option, [], ap, append_assoc, arith, false, if-both, if-cases, length,
  length-append, none, refl, some, true, ℕ, ◌++◌, ◌+◌, ◌∷◌, ◌≡◌,
}
use capptpl.Channel.{Channel}
use capptpl.Messages.{
  Arrival, Event, Threads, allocate_message, free_message, handle_message, init_failed, initial,
  inputer_round, inputer_step, malloc_failed, receive_message, received, run, start_inputer,
  start_worker, step, stop_inputer, stop_worker, worker_round, worker_step,
}

unfoldable pub one : Bool → ℕ
one true = 1
one false = 0

module _ (lib : Channel Bytes) where
  open lib use {contents}

  pub record IsSound (t : Threads lib) : Type 0 where
    pub in_order : t.handled ++ contents t.chan_msg ≡ t.arrived
    pub in_memory :
        t.memory ≡ length (contents t.chan_msg) + one t.inputer_waiting + one t.worker_holding
    pub inputer_done : t.inputer_running ≡ false → t.inputer_waiting ≡ false
    pub worker_done : t.worker_running ≡ false → t.worker_holding ≡ false

  initial-IsSound : IsSound (initial lib)
  unfolding initial one
  initial-IsSound = record {
    in_order = lib.new_is_empty;
    in_memory = omega (arith, ap length lib.new_is_empty);
    inputer_done = λ e. refl;
    worker_done = λ e. refl;
  }

  allocate_message-IsSound :
      (a : Arrival) (t : Threads lib)
      → t.inputer_running ≡ true
      → t.inputer_waiting ≡ false
      → IsSound t
      → IsSound (allocate_message lib a t)
  unfolding allocate_message one
  allocate_message-IsSound malloc_failed t r w s = record {
    in_order = s.in_order;
    in_memory = s.in_memory;
    inputer_done = λ e. w;
    worker_done = s.worker_done;
  }
  allocate_message-IsSound init_failed t r w s = record {
    in_order = s.in_order;
    in_memory = omega (arith, s.in_memory);
    inputer_done = s.inputer_done;
    worker_done = s.worker_done;
  }
  allocate_message-IsSound _ t r w s = record {
    in_order = s.in_order;
    in_memory = omega (arith, s.in_memory, ap one w);
    inputer_done = λ e. cc (r, e);
    worker_done = s.worker_done;
  }

  receive_message-IsSound :
      (a : Arrival) (t : Threads lib)
      → t.inputer_waiting ≡ true
      → IsSound t
      → IsSound (receive_message lib a t)
  unfolding receive_message one
  receive_message-IsSound (received m) t w s =
      let grown = lib.send_appends m t.chan_msg in
      record {
        in_order = rw grown (rw (← append_assoc) (ap (λ l. l ++ m ∷ []) s.in_order));
        in_memory = omega (
          arith,
          s.in_memory,
          ap one w,
          ap length grown,
          length-append {0} (contents t.chan_msg) (m ∷ []),
        );
        inputer_done = λ e. refl;
        worker_done = s.worker_done;
      }
  receive_message-IsSound _ t w s = record {
    in_order = s.in_order;
    in_memory = omega (arith, s.in_memory, ap one w);
    inputer_done = λ e. refl;
    worker_done = s.worker_done;
  }

  handle_message-IsSound :
      (o : Option (Bytes × lib.Queue)) (t : Threads lib)
      → lib.wait_time t.chan_msg ≡ o
      → t.worker_running ≡ true
      → t.worker_holding ≡ false
      → IsSound t
      → IsSound (handle_message lib o t)
  unfolding handle_message one
  handle_message-IsSound none t e r h s = record {
    in_order = s.in_order;
    in_memory = s.in_memory;
    inputer_done = s.inputer_done;
    worker_done = s.worker_done;
  }
  handle_message-IsSound (some (m, q)) t e r h s =
      let taken = lib.wait_takes t.chan_msg m q e in
      record {
        in_order = rw append_assoc (rw (← taken) s.in_order);
        in_memory = omega (arith, s.in_memory, ap length taken, ap one h);
        inputer_done = s.inputer_done;
        worker_done = λ f. cc (r, f);
      }

  free_message-IsSound :
      (t : Threads lib) → t.worker_holding ≡ true → IsSound t → IsSound (free_message lib t)
  unfolding free_message one
  free_message-IsSound t h s = record {
    in_order = s.in_order;
    in_memory = omega (arith, s.in_memory, ap one h);
    inputer_done = s.inputer_done;
    worker_done = λ f. refl;
  }

  inputer_step-IsSound :
      (a : Arrival) (t : Threads lib) → IsSound t → IsSound (inputer_step lib a t)
  unfolding inputer_step
  inputer_step-IsSound a t s =
      if-cases IsSound t.inputer_running _ _
        (λ r.
          if-cases IsSound t.inputer_waiting _ _ (λ w. receive_message-IsSound a t w s)
            (λ w.
              if-both IsSound t.inputer_shutdown
                (record {
                  in_order = s.in_order;
                  in_memory = s.in_memory;
                  inputer_done = λ e. w;
                  worker_done = s.worker_done;
                })
                (allocate_message-IsSound a t r w s)))
        (λ r. s)

  worker_step-IsSound : (t : Threads lib) → IsSound t → IsSound (worker_step lib t)
  unfolding worker_step
  worker_step-IsSound t s =
      if-cases IsSound t.worker_running _ _
        (λ r.
          if-cases IsSound t.worker_holding _ _ (λ h. free_message-IsSound t h s)
            (λ h.
              if-both IsSound t.worker_waiting
                (handle_message-IsSound (lib.wait_time t.chan_msg) t refl r h s)
                (if-both IsSound t.worker_shutdown
                  (record {
                    in_order = s.in_order;
                    in_memory = s.in_memory;
                    inputer_done = s.inputer_done;
                    worker_done = λ e. h;
                  })
                  (record {
                    in_order = s.in_order;
                    in_memory = s.in_memory;
                    inputer_done = s.inputer_done;
                    worker_done = s.worker_done;
                  }))))
        (λ r. s)

  step-IsSound : (e : Event) (t : Threads lib) → IsSound t → IsSound (step lib e t)
  unfolding step
  step-IsSound start_inputer t s = record {
    in_order = s.in_order;
    in_memory = s.in_memory;
    inputer_done = λ e. cc e;
    worker_done = s.worker_done;
  }
  step-IsSound start_worker t s = record {
    in_order = s.in_order;
    in_memory = s.in_memory;
    inputer_done = s.inputer_done;
    worker_done = λ e. cc e;
  }
  step-IsSound stop_inputer t s = record {
    in_order = s.in_order;
    in_memory = s.in_memory;
    inputer_done = s.inputer_done;
    worker_done = s.worker_done;
  }
  step-IsSound stop_worker t s = record {
    in_order = s.in_order;
    in_memory = s.in_memory;
    inputer_done = s.inputer_done;
    worker_done = s.worker_done;
  }
  step-IsSound (inputer_round a) t s = inputer_step-IsSound a t s
  step-IsSound worker_round t s = worker_step-IsSound t s

  pub run-IsSound_from : (es : List Event) (t : Threads lib) → IsSound t → IsSound (run lib es t)
  unfolding run
  run-IsSound_from [] t s = s
  run-IsSound_from (e ∷ es) t s = run-IsSound_from es (step lib e t) (step-IsSound e t s)

  -- Whatever the schedule of the two threads, of the network and of the main thread: the worker
  -- has taken the messages in the order in which they arrived, each once, and those that it has
  -- not taken are in the channel in that order; the messages in memory are as many as those in the
  -- channel, with the one that the inputer has allocated while it waits and the one that the
  -- worker has to free; and a thread that is not in its loop has none.
  pub run-IsSound : (es : List Event) → IsSound (run lib es (initial lib))
  run-IsSound es = run-IsSound_from es (initial lib) initial-IsSound

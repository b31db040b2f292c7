-- ===== src/Messages/Counts.antt =====
-- The counters, and the `shutdown` flags.
use capptpl.Base.{
  All, Bytes, List, Option, [], arith, if-both, length, length-append, none, refl, some, ℕ, ◌%◌,
  ◌++◌, ◌+◌, ◌∷◌, ◌≡◌,
}
use capptpl.Channel.{Channel}
use capptpl.Messages.{
  Arrival, Event, Threads, allocate_message, free_message, handle_message, initial, inputer_round,
  inputer_step, malloc_failed, receive_message, received, run, start_inputer, start_worker, step,
  stop_inputer, stop_worker, u64, worker_round, worker_step,
}

abbrev pub IsNoStart : Event → Type 0
IsNoStart start_inputer = ⊥
IsNoStart start_worker = ⊥
IsNoStart _ = Unit

module _ (lib : Channel Bytes) where
  -- Both counters count modulo 2 ^ 64.
  pub record IsCounted (t : Threads lib) : Type 0 where
    pub arrived_counted : t.inputer_count ≡ length t.arrived % u64
    pub handled_counted : t.worker_count ≡ length t.handled % u64

  count_next :
      {A : Type 0} (l : List A) (a : A) (n : ℕ)
      → n ≡ length l % u64
      → (n + 1) % u64 ≡ length (l ++ a ∷ []) % u64
  count_next l a n e = omega (arith, e, length-append {0} l (a ∷ []))

  receive_message-IsCounted :
      (a : Arrival) (t : Threads lib) → IsCounted t → IsCounted (receive_message lib a t)
  unfolding receive_message
  receive_message-IsCounted (received m) t c = record {
    arrived_counted = count_next t.arrived m t.inputer_count c.arrived_counted;
    handled_counted = c.handled_counted;
  }
  receive_message-IsCounted _ t c = assumption

  allocate_message-IsCounted :
      (a : Arrival) (t : Threads lib) → IsCounted t → IsCounted (allocate_message lib a t)
  unfolding allocate_message
  allocate_message-IsCounted malloc_failed t c = assumption
  allocate_message-IsCounted _ t c = assumption

  handle_message-IsCounted :
      (o : Option (Bytes × lib.Queue)) (t : Threads lib)
      → IsCounted t
      → IsCounted (handle_message lib o t)
  unfolding handle_message
  handle_message-IsCounted none t c = assumption
  handle_message-IsCounted (some (m, q)) t c = record {
    arrived_counted = c.arrived_counted;
    handled_counted = count_next t.handled m t.worker_count c.handled_counted;
  }

  step-IsCounted :
      (e : Event) (t : Threads lib) → IsNoStart e → IsCounted t → IsCounted (step lib e t)
  unfolding step inputer_step worker_step free_message
  step-IsCounted start_inputer t n c = elim n [ ]
  step-IsCounted start_worker t n c = elim n [ ]
  step-IsCounted stop_inputer t n c = assumption
  step-IsCounted stop_worker t n c = assumption
  step-IsCounted (inputer_round a) t n c =
      if-both IsCounted t.inputer_running
        (if-both IsCounted t.inputer_waiting (receive_message-IsCounted a t c)
          (if-both IsCounted t.inputer_shutdown (assumption) (allocate_message-IsCounted a t c)))
        c
  step-IsCounted worker_round t n c =
      if-both IsCounted t.worker_running
        (if-both IsCounted t.worker_holding (assumption) (
          if-both IsCounted t.worker_waiting
            (handle_message-IsCounted (lib.wait_time t.chan_msg) t c)
            (if-both IsCounted t.worker_shutdown (assumption) (assumption))))
        c

  run-IsCounted_from :
      (es : List Event) (t : Threads lib)
      → All IsNoStart es
      → IsCounted t
      → IsCounted (run lib es t)
  unfolding run
  run-IsCounted_from [] t n c = c
  run-IsCounted_from (e ∷ es) t (n, ns) c =
      run-IsCounted_from es (step lib e t) ns (step-IsCounted e t n c)

  started-IsCounted : IsCounted (step lib start_inputer (step lib start_worker (initial lib)))
  unfolding step initial
  started-IsCounted = record { arrived_counted = refl; handled_counted = refl }

  -- Once both threads have started, the two counters are the numbers of messages that have
  -- arrived and that have been handled, modulo 2 ^ 64, whatever the schedule.
  pub run-IsCounted :
      (es : List Event)
      → All IsNoStart es
      → IsCounted (run lib (start_worker ∷ start_inputer ∷ es) (initial lib))
  unfolding run
  run-IsCounted es n =
      run-IsCounted_from es (step lib start_inputer (step lib start_worker (initial lib))) n
        started-IsCounted

-- ===== src/Messages/Stop.antt =====
-- What setting `shutdown` does when the thread has not started yet.
use capptpl.Base.{All, Bytes, List, [], arith, false, refl, true, ◌++◌, ◌∷◌, ◌≡◌}
use capptpl.Channel.{Channel}
use capptpl.Messages.{
  Event, Threads, allocate_message, free_message, handle_message, inputer_round, inputer_step,
  malloc_failed, receive_failed, receive_message, run, start_inputer, start_worker, step,
  stop_inputer, worker_step,
}
use capptpl.Messages.Counts.{IsNoStart}

-- Nothing that ends the loop of `inputer_loop` or starts it again.
abbrev pub IsQuiet : Event → Type 0
IsQuiet start_inputer = ⊥
IsQuiet stop_inputer = ⊥
IsQuiet (inputer_round malloc_failed) = ⊥
IsQuiet (inputer_round receive_failed) = ⊥
IsQuiet _ = Unit

module _ (lib : Channel Bytes) where
  pub run-append :
      (es fs : List Event) (t : Threads lib) → run lib (es ++ fs) t ≡ run lib fs (run lib es t)
  unfolding run
  run-append [] fs t = refl
  run-append (e ∷ es) fs t = run-append es fs (step lib e t)

  stays_off_step :
      (e : Event) (t : Threads lib)
      → IsNoStart e
      → t.inputer_running ≡ false
      → (step lib e t).inputer_running ≡ false
  unfolding step inputer_step worker_step handle_message free_message allocate_message
  stays_off_step start_inputer t n h = elim n [ ]
  stays_off_step start_worker t n h = elim n [ ]
  stays_off_step (inputer_round a) t n h = ground arith
  stays_off_step _ t n h = ground arith

  pub stays_off :
      (es : List Event) (t : Threads lib)
      → All IsNoStart es
      → t.inputer_running ≡ false
      → (run lib es t).inputer_running ≡ false
  unfolding run
  stays_off [] t n h = h
  stays_off (e ∷ es) t (n, ns) h = stays_off es (step lib e t) ns (stays_off_step e t n h)

  quiet_step :
      (e : Event) (t : Threads lib)
      → IsQuiet e
      → (t.inputer_running ≡ true) × (t.inputer_shutdown ≡ false)
      → ((step lib e t).inputer_running ≡ true) × ((step lib e t).inputer_shutdown ≡ false)
  unfolding step inputer_step worker_step handle_message free_message receive_message
      allocate_message
  quiet_step start_inputer t q h = elim q [ ]
  quiet_step stop_inputer t q h = elim q [ ]
  quiet_step (inputer_round malloc_failed) t q h = elim q [ ]
  quiet_step (inputer_round receive_failed) t q h = elim q [ ]
  quiet_step (inputer_round _) t q h = ground arith
  quiet_step _ t q h = ground arith

  quiet_run :
      (es : List Event) (t : Threads lib)
      → All IsQuiet es
      → (t.inputer_running ≡ true) × (t.inputer_shutdown ≡ false)
      → ((run lib es t).inputer_running ≡ true) × ((run lib es t).inputer_shutdown ≡ false)
  unfolding run
  quiet_run [] t q h = h
  quiet_run (e ∷ es) t (q, qs) h = quiet_run es (step lib e t) qs (quiet_step e t q h)

  -- If the main thread asks the inputer to stop before its loop has begun, the request is lost:
  -- the loop is still running after any further schedule without another request or a failure.
  pub run-stop_lost :
      (es : List Event) (t : Threads lib)
      → All IsQuiet es
      → (run lib (stop_inputer ∷ start_inputer ∷ es) t).inputer_running ≡ true
  unfolding run step
  run-stop_lost es t q =
      (quiet_run es (step lib start_inputer (step lib stop_inputer t)) q (refl, refl)).0

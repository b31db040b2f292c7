-- ===== src/Messages/Closing.antt =====
-- The end of `main` (apptpl/main.c): the inputer is asked to stop and joined, then the worker.
pub mod Left
use mathlib.Core.Path.{subst}
use capptpl.Base.{
  All, Bytes, List, Option, [], arith, false, if-both, if-cases, if◌then◌else◌, length,
  length-append, none, refl, some, suc, sym, true, ℕ, ◌++◌, ◌+◌, ◌-◌, ◌∙◌, ◌∷◌, ◌≡◌, ◌≤◌,
}
use capptpl.Channel.{Channel}
use capptpl.Messages.{
  Arrival, Event, Threads, free_message, handle_message, inputer_round, inputer_step,
  receive_failed, receive_message, received, run, start_inputer, start_worker, step, stop_inputer,
  stop_worker, worker_round, worker_step,
}
use capptpl.Messages.Order.{one}

module _ (lib : Channel Bytes) where
  -- `main` from `inputer_stop` to the join of the worker: what the threads do before and after
  -- `wrkr.shutdown = 1`.
  unfoldable pub close_threads : List Event → List Event → Threads lib → Threads lib
  unfolding run
  close_threads before after t = run lib (stop_inputer ∷ (before ++ stop_worker ∷ after)) t

-- A step of a thread, and nothing that `main` does.
abbrev pub IsRound : Event → Type 0
IsRound (inputer_round a) = Unit
IsRound worker_round = Unit
IsRound _ = ⊥

abbrev pub inputer_rounds : List Event → ℕ
inputer_rounds [] = 0
inputer_rounds (inputer_round a ∷ es) = suc (inputer_rounds es)
inputer_rounds (_ ∷ es) = inputer_rounds es

abbrev pub worker_rounds : List Event → ℕ
worker_rounds [] = 0
worker_rounds (worker_round ∷ es) = suc (worker_rounds es)
worker_rounds (_ ∷ es) = worker_rounds es

module _ (lib : Channel Bytes) where
  open lib use {wait_time}

  -- How many steps the inputer is from its end once it has been told to stop.
  unfoldable pub inputer_far : Threads lib → ℕ
  inputer_far t = if t.inputer_running then (if t.inputer_waiting then 2 else 1) else 0

  unfoldable pub worker_far : Threads lib → ℕ
  worker_far t =
      if t.worker_running
      then (if t.worker_holding then 1 else 0) + (if t.worker_waiting then 3 else 1)
      else 0

  pub far-off : (t : Threads lib) → inputer_far t ≤ 0 → t.inputer_running ≡ false
  unfolding inputer_far
  far-off t h = ground arith

  pub worker_far-off : (t : Threads lib) → worker_far t ≤ 0 → t.worker_running ≡ false
  unfolding worker_far
  worker_far-off t h = ground arith

  -- `u` is `t` after steps of an inputer that has been told to stop, as many as `n`.
  pub record InputerWinds (n : ℕ) (t u : Threads lib) : Type 0 where
    pub told : u.inputer_shutdown ≡ true
    pub nearer : inputer_far u ≤ inputer_far t - n
    pub few_arrived :
        length u.arrived + one u.inputer_waiting ≤ length t.arrived + one t.inputer_waiting

  -- `u` is `t` after steps of a worker that has been told to stop, as many as `n`.
  pub record WorkerWinds (n : ℕ) (t u : Threads lib) : Type 0 where
    pub told : u.worker_shutdown ≡ true
    pub nearer : worker_far u ≤ worker_far t - n
    pub few_handled :
        length u.handled + one u.worker_waiting ≤ length t.handled + one t.worker_waiting

  receive_message-Winds :
      (a : Arrival) (t : Threads lib)
      → t.inputer_shutdown ≡ true
      → t.inputer_running ≡ true
      → t.inputer_waiting ≡ true
      → InputerWinds 1 t (receive_message lib a t)
  unfolding receive_message inputer_far one
  receive_message-Winds (received m) t s r w = record {
    told = s;
    nearer = rw (r, w) (omega arith);
    few_arrived = rw w (omega (arith, length-append {0} t.arrived (m ∷ [])));
  }
  receive_message-Winds receive_failed t s r w = record {
    told = s;
    nearer = omega arith;
    few_arrived = rw w (omega arith);
  }
  receive_message-Winds _ t s r w = record {
    told = s;
    nearer = rw (r, w) (omega arith);
    few_arrived = rw w (omega arith);
  }

  inputer_step-Winds :
      (a : Arrival) (t : Threads lib)
      → t.inputer_shutdown ≡ true
      → InputerWinds 1 t (inputer_step lib a t)
  unfolding inputer_step inputer_far
  inputer_step-Winds a t s =
      if-cases (InputerWinds 1 t) t.inputer_running _ _
        (λ r.
          if-cases (InputerWinds 1 t) t.inputer_waiting _ _ (λ w. receive_message-Winds a t s r w)
            (λ w.
              if-cases (InputerWinds 1 t) t.inputer_shutdown _ _
                (λ x. record { told = s; nearer = omega arith; few_arrived = omega arith })
                (λ x. cc (s, x))))
        (λ r. record { told = s; nearer = rw r (omega arith); few_arrived = omega arith })

  -- What the worker does is nothing to the inputer, and the other way round.
  handle_message-inputer :
      (o : Option (Bytes × lib.Queue)) (t : Threads lib)
      → t.inputer_shutdown ≡ true
      → InputerWinds 0 t (handle_message lib o t)
  unfolding handle_message inputer_far
  handle_message-inputer none t s = record {
    told = s;
    nearer = omega arith;
    few_arrived = omega arith;
  }
  handle_message-inputer (some (m, q)) t s = record {
    told = s;
    nearer = omega arith;
    few_arrived = omega arith;
  }

  worker_step-inputer :
      (t : Threads lib) → t.inputer_shutdown ≡ true → InputerWinds 0 t (worker_step lib t)
  unfolding worker_step inputer_far free_message
  worker_step-inputer t s =
      let same : InputerWinds 0 t t = record {
        told = s;
        nearer = omega arith;
        few_arrived = omega arith;
      } in
      if-both (InputerWinds 0 t) t.worker_running
        (if-both (InputerWinds 0 t) t.worker_holding
          (record { told = s; nearer = omega arith; few_arrived = omega arith })
          (if-both (InputerWinds 0 t) t.worker_waiting
            (handle_message-inputer (wait_time t.chan_msg) t s)
            (if-both (InputerWinds 0 t) t.worker_shutdown
              (record { told = s; nearer = omega arith; few_arrived = omega arith })
              (record { told = s; nearer = omega arith; few_arrived = omega arith }))))
        same

  pub inputer_winds :
      (es : List Event) (t : Threads lib)
      → All IsRound es
      → t.inputer_shutdown ≡ true
      → InputerWinds (inputer_rounds es) t (run lib es t)
  unfolding run step
  inputer_winds [] t h s = record { told = s; nearer = omega arith; few_arrived = omega arith }
  inputer_winds (inputer_round a ∷ es) t (h, hs) s =
      let w = inputer_step-Winds a t s in
      let k = inputer_winds es (inputer_step lib a t) hs w.told in
      record {
        told = k.told;
        nearer = omega (arith, w.nearer, k.nearer);
        few_arrived = omega (arith, w.few_arrived, k.few_arrived);
      }
  inputer_winds (worker_round ∷ es) t (h, hs) s =
      let w = worker_step-inputer t s in
      let k = inputer_winds es (worker_step lib t) hs w.told in
      record {
        told = k.told;
        nearer = omega (arith, w.nearer, k.nearer);
        few_arrived = omega (arith, w.few_arrived, k.few_arrived);
      }
  inputer_winds (start_inputer ∷ es) t (h, hs) s = elim h [ ]
  inputer_winds (start_worker ∷ es) t (h, hs) s = elim h [ ]
  inputer_winds (stop_inputer ∷ es) t (h, hs) s = elim h [ ]
  inputer_winds (stop_worker ∷ es) t (h, hs) s = elim h [ ]

  handle_message-Winds :
      (o : Option (Bytes × lib.Queue)) (t : Threads lib)
      → t.worker_shutdown ≡ true
      → t.worker_running ≡ true
      → t.worker_holding ≡ false
      → t.worker_waiting ≡ true
      → WorkerWinds 1 t (handle_message lib o t)
  unfolding handle_message worker_far one
  handle_message-Winds none t s r h w = record {
    told = s;
    nearer = rw (r, h, w) (omega arith);
    few_handled = rw w (omega arith);
  }
  handle_message-Winds (some (m, q)) t s r h w = record {
    told = s;
    nearer = rw (r, h, w) (omega arith);
    few_handled = rw w (omega (arith, length-append {0} t.handled (m ∷ [])));
  }

  worker_step-Winds :
      (t : Threads lib) → t.worker_shutdown ≡ true → WorkerWinds 1 t (worker_step lib t)
  unfolding worker_step worker_far free_message
  worker_step-Winds t s =
      if-cases (WorkerWinds 1 t) t.worker_running _ _
        (λ r.
          if-cases (WorkerWinds 1 t) t.worker_holding _ _
            (λ h. record { told = s; nearer = ground arith; few_handled = omega arith })
            (λ h.
              if-cases (WorkerWinds 1 t) t.worker_waiting _ _
                (λ w. handle_message-Winds (wait_time t.chan_msg) t s r h w)
                (λ w.
                  if-cases (WorkerWinds 1 t) t.worker_shutdown _ _
                    (λ x. record { told = s; nearer = omega arith; few_handled = omega arith })
                    (λ x. cc (s, x)))))
        (λ r. record { told = s; nearer = rw r (omega arith); few_handled = omega arith })

  -- A step of the inputer's thread leaves the worker alone.
  inputer_step-worker :
      (a : Arrival) (t : Threads lib) → t.inputer_running ≡ false → inputer_step lib a t ≡ t
  unfolding inputer_step
  inputer_step-worker a t r = rw r refl

  worker_step-off :
      (t : Threads lib) → t.inputer_running ≡ false → (worker_step lib t).inputer_running ≡ false
  unfolding worker_step handle_message free_message
  worker_step-off t r = ground arith

  -- `u` is `t` after the inputer has ended, and the worker has been told to stop.
  pub record Ends (n : ℕ) (t u : Threads lib) : Type 0 where
    pub winds : WorkerWinds n t u
    pub off : u.inputer_running ≡ false
    pub same_arrived : u.arrived ≡ t.arrived

  worker_step-arrived : (t : Threads lib) → (worker_step lib t).arrived ≡ t.arrived
  unfolding worker_step handle_message free_message
  worker_step-arrived t = ground arith

  pub worker_winds :
      (es : List Event) (t : Threads lib)
      → All IsRound es
      → t.inputer_running ≡ false
      → t.worker_shutdown ≡ true
      → Ends (worker_rounds es) t (run lib es t)
  unfolding run step
  worker_winds [] t h r s = record {
    winds = record { told = s; nearer = omega arith; few_handled = omega arith };
    off = r;
    same_arrived = refl;
  }
  worker_winds (inputer_round a ∷ es) t (h, hs) r s =
      subst (λ x. Ends (worker_rounds es) t (run lib es x)) (sym (inputer_step-worker a t r))
        (worker_winds es t hs r s)
  worker_winds (worker_round ∷ es) t (h, hs) r s =
      let w = worker_step-Winds t s in
      let k = worker_winds es (worker_step lib t) hs (worker_step-off t r) w.told in
      record {
        winds = record {
          told = k.winds.told;
          nearer = omega (arith, w.nearer, k.winds.nearer);
          few_handled = omega (arith, w.few_handled, k.winds.few_handled);
        };
        off = k.off;
        same_arrived = k.same_arrived ∙ worker_step-arrived t;
      }
  worker_winds (start_inputer ∷ es) t (h, hs) r s = elim h [ ]
  worker_winds (start_worker ∷ es) t (h, hs) r s = elim h [ ]
  worker_winds (stop_inputer ∷ es) t (h, hs) r s = elim h [ ]
  worker_winds (stop_worker ∷ es) t (h, hs) r s = elim h [ ]

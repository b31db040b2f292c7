-- ===== src/Messages/Refine.antt =====
-- The inputer, the channel and the worker are a pipe.
use mathlib.Core.Path.{subst}
use capptpl.Base.{
  Bool-cases, Bytes, List, Option, [], ap, false, if-both, inl, inr, none, refl, some, sym, true,
  ◌++◌, ◌+◌, ◌-◌, ◌∙◌, ◌∷◌, ◌≡◌,
}
use capptpl.Channel.{Channel}
use capptpl.Channel.Pipe.{Moves, Moves-trans, Pipe, accept, deliver, still}
use capptpl.Messages.{
  Arrival, Event, Threads, allocate_message, free_message, handle_message, inputer_round,
  inputer_step, malloc_failed, receive_message, receive_timeout, received, run, start_inputer,
  start_worker, step, stop_inputer, stop_worker, worker_round, worker_step,
}
use capptpl.Messages.Stop.{run-append}

module _ (lib : Channel Bytes) where
  open lib use {Queue, contents, wait_time}

  -- What a pipe shows of the threads.
  unfoldable pub view : Threads lib → Pipe Bytes
  view t = record { accepted = t.arrived; waiting = contents t.chan_msg; delivered = t.handled }

  receive_message-Moves :
      (a : Arrival) (t : Threads lib) → Moves (view t) (view (receive_message lib a t))
  unfolding receive_message view
  receive_message-Moves (received m) t =
      subst (λ w. Moves (view t) (record (view t) { accepted = t.arrived ++ m ∷ []; waiting = w }))
        (sym (lib.send_appends m t.chan_msg)) (accept m still)
  receive_message-Moves _ t = still

  allocate_message-Moves :
      (a : Arrival) (t : Threads lib) → Moves (view t) (view (allocate_message lib a t))
  unfolding allocate_message view
  allocate_message-Moves malloc_failed t = still
  allocate_message-Moves _ t = still

  handle_message-Moves :
      (o : Option (Bytes × Queue)) (t : Threads lib)
      → wait_time t.chan_msg ≡ o
      → Moves (view t) (view (handle_message lib o t))
  unfolding handle_message view
  handle_message-Moves none t e = still
  handle_message-Moves (some (m, q)) t e =
      deliver m (contents q) (lib.wait_takes t.chan_msg m q e) still

  step-Moves : (e : Event) (t : Threads lib) → Moves (view t) (view (step lib e t))
  unfolding step inputer_step worker_step free_message view
  step-Moves start_inputer t = still
  step-Moves start_worker t = still
  step-Moves stop_inputer t = still
  step-Moves stop_worker t = still
  step-Moves (inputer_round a) t =
      if-both (λ u. Moves (view t) (view u)) t.inputer_running
        (if-both (λ u. Moves (view t) (view u)) t.inputer_waiting (receive_message-Moves a t)
          (if-both (λ u. Moves (view t) (view u)) t.inputer_shutdown still
            (allocate_message-Moves a t)))
        still
  step-Moves worker_round t =
      if-both (λ u. Moves (view t) (view u)) t.worker_running
        (if-both (λ u. Moves (view t) (view u)) t.worker_holding still
          (if-both (λ u. Moves (view t) (view u)) t.worker_waiting
            (handle_message-Moves (wait_time t.chan_msg) t refl)
            (if-both (λ u. Moves (view t) (view u)) t.worker_shutdown still still)))
        still

  -- The inputer's thread, the channel and the worker's thread implement a pipe: in every schedule,
  -- from every state and for every channel, what has arrived, what waits in the channel and what
  -- has been handled change only by accepting a message at the end or delivering the first one.
  pub run-Moves : (es : List Event) (t : Threads lib) → Moves (view t) (view (run lib es t))
  unfolding run
  run-Moves [] t = still
  run-Moves (e ∷ es) t = Moves-trans (step-Moves e t) (run-Moves es (step lib e t))

  -- Both threads are in their loops, and have not been told to stop.
  abbrev pub IsRunning : Threads lib → Type 0
  IsRunning t =
      (t.inputer_running ≡ true)
      × (t.inputer_shutdown ≡ false)
      × (t.worker_running ≡ true)
      × (t.worker_shutdown ≡ false)

  -- A state that a schedule leads to, which shows `p` and in which both threads go on.
  pub record Reaches (t u : Threads lib) (p : Pipe Bytes) : Type 0 where
    pub schedule : List Event
    pub leads : run lib schedule t ≡ u
    pub shows : view u ≡ p
    pub running : IsRunning u

  -- One step more.
  further :
      (t u v : Threads lib) (p q : Pipe Bytes) (e : Event)
      → Reaches t u p
      → step lib e u ≡ v
      → view v ≡ q
      → IsRunning v
      → Reaches t v q
  unfolding run
  further t u v p q e h k w r = record {
    schedule = h.schedule ++ e ∷ [];
    leads = run-append lib h.schedule (e ∷ []) t ∙ ap (λ x. step lib e x) h.leads ∙ k;
    shows = w;
    running = r;
  }

  allocate_round :
      (u : Threads lib)
      → IsRunning u
      → u.inputer_waiting ≡ false
      → step lib (inputer_round receive_timeout) u
        ≡ record u { memory = u.memory + 1; inputer_waiting = true }
  unfolding step inputer_step allocate_message
  allocate_round u (i, s, w, h) n = rw (i, n, s) refl

  -- The inputer comes to wait for a message.
  inputer_ready :
      (t u : Threads lib) (p : Pipe Bytes)
      → Reaches t u p
      → (v : Threads lib) × Reaches t v p × (v.inputer_waiting ≡ true)
  unfolding view
  inputer_ready t u p h = elim (Bool-cases u.inputer_waiting) [
    | inl w ↦ (u, h, w)
    | inr n ↦ (
      record u { memory = u.memory + 1; inputer_waiting = true },
      further t u _ p p (inputer_round receive_timeout) h (allocate_round u h.running n) h.shows
          h.running,
      refl,
    )
  ]

  test_round :
      (u : Threads lib)
      → IsRunning u
      → u.worker_holding ≡ false
      → u.worker_waiting ≡ false
      → step lib worker_round u ≡ record u { worker_waiting = true }
  unfolding step worker_step
  test_round u (i, s, w, h) n m = rw (w, n, m, h) refl

  free_round :
      (u : Threads lib)
      → IsRunning u
      → u.worker_holding ≡ true
      → step lib worker_round u ≡ record u { worker_holding = false; memory = u.memory - 1 }
  unfolding step worker_step free_message
  free_round u (i, s, w, h) n = rw (w, n) refl

  abbrev IsReady : Threads lib → Threads lib → Pipe Bytes → Type 0
  IsReady t v p = Reaches t v p × (v.worker_holding ≡ false) × (v.worker_waiting ≡ true)

  freed-IsReady :
      (t u : Threads lib) (p : Pipe Bytes)
      → Reaches t u p
      → u.worker_holding ≡ false
      → (v : Threads lib) × IsReady t v p
  unfolding view
  freed-IsReady t u p h n = elim (Bool-cases u.worker_waiting) [
    | inl w ↦ (u, (h, n, w))
    | inr m ↦ (
      record u { worker_waiting = true },
      (further t u _ p p worker_round h (test_round u h.running n m) h.shows h.running, n, refl),
    )
  ]

  -- The worker comes to wait for a message.
  worker-IsReady :
      (t u : Threads lib) (p : Pipe Bytes) → Reaches t u p → (v : Threads lib) × IsReady t v p
  unfolding view
  worker-IsReady t u p h = elim (Bool-cases u.worker_holding) [
    | inl w ↦
        freed-IsReady t (record u { worker_holding = false; memory = u.memory - 1 }) p
          (further t u _ p p worker_round h (free_round u h.running w) h.shows h.running) refl
    | inr n ↦ freed-IsReady t u p h n
  ]

  accept_round :
      (u : Threads lib) (b : Bytes)
      → IsRunning u
      → u.inputer_waiting ≡ true
      → step lib (inputer_round (received b)) u ≡ receive_message lib (received b) u
  unfolding step inputer_step
  accept_round u b (i, s, w, h) n = rw (i, n) refl

  accept-view :
      (u : Threads lib) (b : Bytes)
      → view (receive_message lib (received b) u) ≡ record (view u) {
        accepted = u.arrived ++ b ∷ [];
        waiting = contents u.chan_msg ++ b ∷ [];
      }
  unfolding receive_message view
  accept-view u b = rw (lib.send_appends b u.chan_msg)

  accept-IsRunning :
      (u : Threads lib) (b : Bytes) → IsRunning u → IsRunning (receive_message lib (received b) u)
  unfolding receive_message
  accept-IsRunning u b h = h

  deliver_round :
      (u : Threads lib)
      → IsRunning u
      → u.worker_holding ≡ false
      → u.worker_waiting ≡ true
      → step lib worker_round u ≡ handle_message lib (wait_time u.chan_msg) u
  unfolding step worker_step
  deliver_round u (i, s, w, h) n m = rw (w, n, m) refl

  deliver-view :
      (u : Threads lib) (b : Bytes) (rest : List Bytes) (o : Option (Bytes × Queue))
      → wait_time u.chan_msg ≡ o
      → contents u.chan_msg ≡ b ∷ rest
      → (view (handle_message lib o u)
          ≡ record (view u) { waiting = rest; delivered = u.handled ++ b ∷ [] })
        × (IsRunning u → IsRunning (handle_message lib o u))
  unfolding handle_message view
  deliver-view u b rest none e c = cc (lib.wait_empty u.chan_msg e)
  deliver-view u b rest (some (m, q)) e c = (cc (c, lib.wait_takes u.chan_msg m q e), λ h. h)

  schedule_for :
      (t : Threads lib) {v p : Pipe Bytes}
      → IsRunning t
      → v ≡ view t
      → Moves v p
      → (u : Threads lib) × Reaches t u p
  unfolding run view
  schedule_for t h v still = (t, record { schedule = []; leads = refl; shows = sym v; running = h })
  schedule_for t h v (accept m k) =
      let (u0, r0) = schedule_for t h v k in
      let (u, r, w) = inputer_ready t u0 _ r0 in
      (
        receive_message lib (received m) u,
        further t u _ _ _ (inputer_round (received m)) r (accept_round u m r.running w)
            (accept-view u m
              ∙ ap
                  (λ (p : Pipe Bytes). record p {
                    accepted = p.accepted ++ m ∷ [];
                    waiting = p.waiting ++ m ∷ [];
                  })
                  r.shows)
            (accept-IsRunning u m r.running),
      )
  schedule_for t h v (deliver m rest e k) =
      let (u0, r0) = schedule_for t h v k in
      let (u, ready) = worker-IsReady t u0 _ r0 in
      let (r, n, w) = ready in
      let (seen, goes_on) =
        deliver-view u m rest (wait_time u.chan_msg) refl
          (ap (λ (p : Pipe Bytes). p.waiting) r.shows ∙ e) in
      (
        handle_message lib (wait_time u.chan_msg) u,
        further t u _ _ _ worker_round r (deliver_round u r.running n w)
            (seen
              ∙ ap
                  (λ (p : Pipe Bytes). record p {
                    waiting = rest;
                    delivered = p.delivered ++ m ∷ [];
                  })
                  r.shows)
            (goes_on r.running),
      )

  -- While both threads are in their loops and have not been told to stop, every behaviour of a pipe
  -- is theirs: whatever the moves of a pipe that start with what has arrived, waits and has been
  -- handled, there is a schedule that shows them, and after it both threads are still running.
  pub run_all :
      (t : Threads lib) (p : Pipe Bytes)
      → IsRunning t
      → Moves (view t) p
      → (es : List Event) × (view (run lib es t) ≡ p) × IsRunning (run lib es t)
  run_all t p h k =
      let (u, r) = schedule_for t h refl k in
      let back = sym r.leads in
      (r.schedule, subst (λ x. view x ≡ p) back r.shows, subst IsRunning back r.running)

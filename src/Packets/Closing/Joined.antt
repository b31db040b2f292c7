-- ===== src/Packets/Closing/Joined.antt =====
-- What the end of `main` (apptpl/main.c) leaves of the packets.
use capptpl.Base.{
  All, List, [], ap, arith, get_or, if◌then◌else◌, length, refl, suc, true, ℕ, ◌++◌, ◌+◌, ◌==◌, ◌∙◌,
  ◌∷◌, ◌≡◌, ◌≢◌, ◌≤◌,
}
use capptpl.Channel.{Channel}
use capptpl.Packets.{
  Event, Matcher, Packet, Parser, State, captured, ended, initial, parser_turn, run, start_parser,
  step, stop_parsers, timer_fired, waiting_start,
}
use capptpl.Packets.Closing.{
  IsTurn, Winds, Winds-refl, Winds-trans, at_wait, close_parsers, distance-ended, far,
  parser_step-Turns, turn_near, turns, words_waiting,
}
use capptpl.Packets.Order.{IsSound, carried, run-IsSound_from, run_packets-IsSound, sum_of, total}

total_none :
    (f : Parser → ℕ) (ps : List Parser)
    → f ended ≡ 0
    → ((i : ℕ) → get_or ps i ended ≡ ended)
    → total f ps ≡ 0
unfolding total
total_none f [] z h = refl
total_none f (p ∷ ps) z h = omega (arith, z, ap f (h 0), total_none f ps z (λ i. h (suc i)))

turns_lem :
    (i j : ℕ) (es : List Event)
    → turns i (parser_turn j ∷ es) ≡ (if i == j then 1 else 0) + turns i es
turns_lem i j es = ground arith

module _ (lib : Channel Packet) (matcher : Matcher) where
  open lib use {contents}

  -- Every thread has begun its loop.
  abbrev pub IsBegun : State lib matcher → Type 0
  IsBegun s = (i : ℕ) → get_or s.parsers i ended ≢ waiting_start

  turn_ahead :
      (j : ℕ) (s : State lib matcher)
      → IsBegun s
      → s.shutdown ≡ true
      → Winds lib matcher s (step lib matcher (parser_turn j) s)
        × IsBegun (step lib matcher (parser_turn j) s)
  unfolding step
  turn_ahead j s b h =
      let t = parser_step-Turns lib matcher j (get_or s.parsers j ended) s refl (b j) h in
      (t.winds, λ i. t.begun i (b i))

  run-Winds :
      (es : List Event) (s : State lib matcher)
      → All IsTurn es
      → IsBegun s
      → s.shutdown ≡ true
      → Winds lib matcher s (run lib matcher es s)
  unfolding run
  run-Winds [] s t b h = Winds-refl lib matcher s h
  run-Winds (parser_turn i ∷ es) s (t, ts) b h =
      let (w, b') = turn_ahead i s b h in
      Winds-trans lib matcher w (run-Winds es (step lib matcher (parser_turn i) s) ts b' w.told)
  run-Winds (captured caplen len pktdata malloc_ok sds_ok ∷ es) s (t, ts) b h = elim t [ ]
  run-Winds (start_parser i ∷ es) s (t, ts) b h = elim t [ ]
  run-Winds (stop_parsers ∷ es) s (t, ts) b h = elim t [ ]
  run-Winds (timer_fired ∷ es) s (t, ts) b h = elim t [ ]

  turns_end :
      (i : ℕ) (es : List Event) (s : State lib matcher)
      → All IsTurn es
      → IsBegun s
      → s.shutdown ≡ true
      → far lib matcher i s ≤ turns i es
      → far lib matcher i (run lib matcher es s) ≤ 0
  unfolding run
  turns_end i [] s t b h k = k
  turns_end i (parser_turn j ∷ es) s (t, ts) b h k =
      let (w, b') = turn_ahead j s b h in
      turns_end i es (step lib matcher (parser_turn j) s) ts b' w.told
        (omega (arith, turn_near lib matcher i j s (b j) h, turns_lem i j es, k))
  turns_end i (captured caplen len pktdata malloc_ok sds_ok ∷ es) s (t, ts) b h k = elim t [ ]
  turns_end i (start_parser j ∷ es) s (t, ts) b h k = elim t [ ]
  turns_end i (stop_parsers ∷ es) s (t, ts) b h k = elim t [ ]
  turns_end i (timer_fired ∷ es) s (t, ts) b h k = elim t [ ]

  -- `u` is what is left of `s` when every parser thread has been joined.
  pub record Joined (s u : State lib matcher) : Type 0 where
    pub all_ended : (i : ℕ) → get_or u.parsers i ended ≡ ended
    pub none_sent : u.sent ≡ s.sent
    pub few_taken : length u.taken ≤ length s.taken + total at_wait s.parsers
    pub all_handled : (f : Packet → ℕ) → sum_of f u.handled ≡ sum_of f u.taken
    pub left_over : u.taken ++ contents u.chan_pkt ≡ s.sent
    pub not_freed : u.memory ≡ length (contents u.chan_pkt)

  all_Joined :
      (s u : State lib matcher)
      → Winds lib matcher s u
      → ((i : ℕ) → get_or u.parsers i ended ≡ ended)
      → IsSound lib matcher u
      → Joined s u
  unfolding carried
  all_Joined s u w all sound = record {
    all_ended = all;
    none_sent = w.same_sent;
    few_taken = omega (arith, w.few_taken);
    all_handled = λ f. omega (arith, sound.kept f, total_none (carried f) u.parsers refl all);
    left_over = sound.in_order ∙ w.same_sent;
    not_freed = omega (arith, sound.in_memory, total_none (carried (λ p. 1)) u.parsers refl all);
  }

  each_ends :
      (es : List Event) (s : State lib matcher)
      → All IsTurn es
      → IsBegun s
      → s.shutdown ≡ true
      → ((i : ℕ) → far lib matcher i s ≤ turns i es)
      → (i : ℕ) → get_or (run lib matcher es s).parsers i ended ≡ ended
  unfolding far
  each_ends es s ts b h enough i =
      let u = run lib matcher es s in
      distance-ended matcher (words_waiting lib matcher u) (get_or u.parsers i ended)
        (turns_end i es s ts b h (enough i))

  Joined-stop : (s u : State lib matcher) → Joined (record s { shutdown = true }) u → Joined s u
  Joined-stop s u j = record {
    all_ended = j.all_ended;
    none_sent = j.none_sent;
    few_taken = j.few_taken;
    all_handled = j.all_handled;
    left_over = j.left_over;
    not_freed = j.not_freed;
  }

  -- When main tells the parsers to stop, from any state that any number of threads can reach, each
  -- thread there is in its loop, and each has as many turns as it may need, which is six more
  -- than there are words in the packets of the channel where it waits for one, in any
  -- interleaving: every thread has ended; nothing has been sent since, and at most as many packets
  -- have been taken as threads were past their test; the packets taken are the packets handled, each
  -- as often; and the packets sent that are not taken are left in the channel and in
  -- memory, with nothing to handle or free them.
  pub close_parsers-Joined :
      (n : ℕ) (es0 es : List Event)
      → All IsTurn es
      → IsBegun (run lib matcher es0 (initial lib matcher n))
      → ((i : ℕ) → far lib matcher i (run lib matcher es0 (initial lib matcher n)) ≤ turns i es)
      → Joined
          (run lib matcher es0 (initial lib matcher n))
          (close_parsers lib matcher es (run lib matcher es0 (initial lib matcher n)))
  unfolding close_parsers run step far words_waiting
  close_parsers-Joined n es0 es ts begun enough =
      let s = run lib matcher es0 (initial lib matcher n) in
      let stopped : State lib matcher = record s { shutdown = true } in
      let sound =
        run-IsSound_from lib matcher (stop_parsers ∷ es) s
          (run_packets-IsSound lib matcher n es0) in
      Joined-stop s (run lib matcher es stopped) (
        all_Joined stopped (run lib matcher es stopped) (run-Winds es stopped ts begun refl)
          (each_ends es stopped ts begun refl enough) sound)

-- ===== src/Packets/Closing.antt =====
-- The end of `main` (apptpl/main.c): the capture has ended, and the parsers are told to stop and
-- joined.
pub mod Joined
use mathlib.Core.Path.{subst}
use native.Mathlib.Decide.{ℕ_discrete}
use capptpl.Base.{
  List, Option, [], ap, arith, get_or, if◌then◌else◌, inl, inr, length, length-append, none, refl,
  set, some, suc, sym, true, zero, ℕ, ◌+◌, ◌-◌, ◌==◌, ◌∙◌, ◌∷◌, ◌≡◌, ◌≢◌, ◌≤◌, ◌⊎◌,
}
use capptpl.Channel.{Channel}
use capptpl.Packets.{
  Event, Matcher, Packet, Parser, State, at_channel, at_loop, ended, matched, matching, parser_step,
  parser_turn, receive_packet, run, step, stop_parsers, uncounted, unsized, waiting_start,
}
use capptpl.Packets.Order.{sum_of, total, total-set}

abbrev pub IsTurn : Event → Type 0
IsTurn (parser_turn i) = Unit
IsTurn _ = ⊥

-- How many turns thread `i` has had.
abbrev pub turns : ℕ → List Event → ℕ
turns i [] = 0
turns i (parser_turn j ∷ es) = let rest = turns i es in if i == j then suc rest else rest
turns i (_ ∷ es) = turns i es

-- How many turns a thread is from its end once it has been told to stop, where the words in all
-- the packets of the channel are `w`; one that has not begun is not on the way.
unfoldable pub distance : Matcher → ℕ → Parser → ℕ
distance m w ended = 0
distance m w at_loop = 1
distance m w (matched p) = 2
distance m w (matching p k) = k + 3
distance m w (unsized p) = m.words p + 4
distance m w (uncounted p) = m.words p + 5
distance m w at_channel = w + 6
distance m w waiting_start = w + 7

pub distance-ended : (m : Matcher) (w : ℕ) (p : Parser) → distance m w p ≤ 0 → p ≡ ended
unfolding distance
distance-ended m w ended h = refl
distance-ended m w (matching p k) h = absurd (omega arith)
distance-ended m w _ h = absurd (omega arith)

distance-le : (m : Matcher) (w v : ℕ) (p : Parser) → w ≤ v → distance m w p ≤ distance m v p
unfolding distance
distance-le m w v at_channel h = omega arith
distance-le m w v waiting_start h = omega arith
distance-le m w v _ h = omega arith

-- 1 for a thread that is past the test of its loop and has no packet.
unfoldable pub at_wait : Parser → ℕ
at_wait at_channel = 1
at_wait _ = 0

get_or-set_other :
    (ps : List Parser) (i j : ℕ) (v : Parser)
    → i ≢ j
    → get_or (set ps j v) i ended ≡ get_or ps i ended
get_or-set_other [] i j v h = refl
get_or-set_other (p ∷ ps) zero zero v h = absurd (h refl)
get_or-set_other (p ∷ ps) zero (suc j) v h = refl
get_or-set_other (p ∷ ps) (suc i) zero v h = refl
get_or-set_other (p ∷ ps) (suc i) (suc j) v h = get_or-set_other ps i j v (λ e. h (ap suc e))

get_or-set_self :
    (ps : List Parser) (i : ℕ) (v p : Parser)
    → get_or ps i ended ≡ p
    → p ≢ ended
    → get_or (set ps i v) i ended ≡ v
get_or-set_self [] i v p e h = absurd (h (sym e))
get_or-set_self (r ∷ ps) zero v p e h = refl
get_or-set_self (r ∷ ps) (suc i) v p e h = get_or-set_self ps i v p e h

module _ (lib : Channel Packet) (matcher : Matcher) where
  open lib use {contents}

  -- `prsr.shutdown = 1`, and what the threads do until they are joined.
  unfoldable pub close_parsers : List Event → State lib matcher → State lib matcher
  unfolding run
  close_parsers es s = run lib matcher (stop_parsers ∷ es) s

  -- The words in all the packets of the channel.
  unfoldable pub words_waiting : State lib matcher → ℕ
  words_waiting s = sum_of matcher.words (contents s.chan_pkt)

  -- How far thread `i` is from its end.
  unfoldable pub far : ℕ → State lib matcher → ℕ
  unfolding distance words_waiting
  far i s = distance matcher (words_waiting s) (get_or s.parsers i ended)

  -- `u` is `s` after turns of parsers that have been told to stop: each packet taken since is one
  -- for a thread that was past its test.
  pub record Winds (s u : State lib matcher) : Type 0 where
    pub told : u.shutdown ≡ true
    pub same_sent : u.sent ≡ s.sent
    pub few_taken :
        length u.taken + total at_wait u.parsers ≤ length s.taken + total at_wait s.parsers

  Winds-refl : (s : State lib matcher) → s.shutdown ≡ true → Winds s s
  Winds-refl s h = record { told = h; same_sent = refl; few_taken = omega arith }

  Winds-trans : {s t u : State lib matcher} → Winds s t → Winds t u → Winds s u
  Winds-trans h k = record {
    told = k.told;
    same_sent = k.same_sent ∙ h.same_sent;
    few_taken = omega (arith, h.few_taken, k.few_taken);
  }

  -- A turn of thread `i`: the others are no farther, and it is nearer unless it has ended.
  pub record Turns (i : ℕ) (s u : State lib matcher) : Type 0 where
    pub winds : Winds s u
    pub others : (j : ℕ) → j ≢ i → far j u ≤ far j s
    pub begun :
        (j : ℕ)
        → get_or s.parsers j ended ≢ waiting_start
        → get_or u.parsers j ended ≢ waiting_start
    pub itself : far i u + 1 ≤ far i s ⊎ (far i u ≡ 0) × (far i s ≡ 0)

  -- A thread moves from `p` to `q`, which is nearer.
  moves-Turns :
      (i : ℕ) (p q : Parser) (s u : State lib matcher)
      → get_or s.parsers i ended ≡ p
      → p ≢ ended
      → q ≢ waiting_start
      → u.parsers ≡ set s.parsers i q
      → s.shutdown ≡ true
      → words_waiting u ≤ words_waiting s
      → distance matcher (words_waiting u) q + 1 ≤ distance matcher (words_waiting s) p
      → length u.taken + at_wait q ≤ length s.taken + at_wait p
      → (u.shutdown ≡ s.shutdown) × (u.sent ≡ s.sent)
      → Turns i s u
  unfolding far
  moves-Turns i p q s u e n m ps h w d t (a, b) = record {
    winds = record {
      told = a ∙ h;
      same_sent = b;
      few_taken = omega (arith, t, ap (total at_wait) ps, total-set at_wait s.parsers i p q e n);
    };
    others = λ j k.
        let same : get_or u.parsers j ended ≡ get_or s.parsers j ended =
          ap (λ l. get_or l j ended) ps ∙ get_or-set_other s.parsers j i q k in
        omega (
          arith,
          ap (distance matcher (words_waiting u)) same,
          distance-le matcher (words_waiting u) (words_waiting s) (get_or s.parsers j ended) w,
        );
    begun = λ j k f. elim (ℕ_discrete j i) [
      | yes g ↦ m (
          sym (get_or-set_self s.parsers i q p e n)
          ∙ ap (λ x. get_or (set s.parsers i q) x ended) (sym g)
          ∙ ap (λ l. get_or l j ended) (sym ps)
          ∙ f)
      | no g ↦
          k (sym (get_or-set_other s.parsers j i q g) ∙ ap (λ l. get_or l j ended) (sym ps) ∙ f)
    ];
    itself =
        let here : get_or u.parsers i ended ≡ q =
          ap (λ l. get_or l i ended) ps ∙ get_or-set_self s.parsers i q p e n in
        inl (
          omega (
            arith,
            d,
            ap (distance matcher (words_waiting u)) here,
            ap (distance matcher (words_waiting s)) e,
          ));
  }

  received-Turns :
      (i : ℕ) (o : Option (Packet × lib.Queue)) (s : State lib matcher)
      → lib.wait_time s.chan_pkt ≡ o
      → get_or s.parsers i ended ≡ at_channel
      → s.shutdown ≡ true
      → Turns i s (receive_packet lib matcher i o s)
  unfolding receive_packet distance at_wait words_waiting
  received-Turns i none s w e h =
      moves-Turns i at_channel at_loop s _ e (λ x. cc) (λ x. cc) refl h (omega arith) (omega arith)
        (omega arith) (refl, refl)
  received-Turns i (some (p, q)) s w e h =
      let first = ap (sum_of matcher.words) (lib.wait_takes s.chan_pkt p q w) in
      moves-Turns i at_channel (uncounted p) s _ e (λ x. cc) (λ x. cc) refl h (omega (arith, first))
        (omega (arith, first)) (omega (arith, length-append {0} s.taken (p ∷ []))) (refl, refl)

  stopped_loop :
      (i : ℕ) (s : State lib matcher)
      → s.shutdown ≡ true
      → parser_step lib matcher i at_loop s ≡ record s { parsers = set s.parsers i ended }
  unfolding parser_step
  stopped_loop i s h = simp h

  pub parser_step-Turns :
      (i : ℕ) (p : Parser) (s : State lib matcher)
      → get_or s.parsers i ended ≡ p
      → p ≢ waiting_start
      → s.shutdown ≡ true
      → Turns i s (parser_step lib matcher i p s)
  unfolding parser_step distance at_wait words_waiting far
  parser_step-Turns i at_loop s e b h = subst (Turns i s) (sym (stopped_loop i s h)) (
      moves-Turns i at_loop ended s _ e (λ x. cc) (λ x. cc) refl h (omega arith) (omega arith)
        (omega arith) (refl, refl))
  parser_step-Turns i at_channel s e b h = received-Turns i (lib.wait_time s.chan_pkt) s refl e h
  parser_step-Turns i (uncounted p) s e b h =
      moves-Turns i (uncounted p) (unsized p) s _ e (λ x. cc) (λ x. cc) refl h (omega arith)
        (omega arith) (omega arith) (refl, refl)
  parser_step-Turns i (unsized p) s e b h =
      moves-Turns i (unsized p) (matching p (matcher.words p)) s _ e (λ x. cc) (λ x. cc) refl h
        (omega arith) (omega arith) (omega arith) (refl, refl)
  parser_step-Turns i (matching p (suc k)) s e b h =
      moves-Turns i (matching p (suc k)) (matching p k) s _ e (λ x. cc) (λ x. cc) refl h
        (omega arith) (omega arith) (omega arith) (refl, refl)
  parser_step-Turns i (matching p zero) s e b h =
      moves-Turns i (matching p 0) (matched p) s _ e (λ x. cc) (λ x. cc) refl h (omega arith)
        (omega arith) (omega arith) (refl, refl)
  parser_step-Turns i (matched p) s e b h =
      moves-Turns i (matched p) at_loop s _ e (λ x. cc) (λ x. cc) refl h (omega arith) (omega arith)
        (omega arith) (refl, refl)
  parser_step-Turns i waiting_start s e b h = absurd (b refl)
  parser_step-Turns i ended s e b h =
      let there : far i s ≡ 0 =
        ap (distance matcher (words_waiting s)) e ∙ unfold distance in refl in
      record {
        winds = Winds-refl s h;
        others = λ j k. omega arith;
        begun = λ j k. k;
        itself = inr (there, there);
      }

  pub turn_near :
      (i j : ℕ) (s : State lib matcher)
      → get_or s.parsers j ended ≢ waiting_start
      → s.shutdown ≡ true
      → far i (step lib matcher (parser_turn j) s) ≤ far i s - (if i == j then 1 else 0)
  unfolding step
  turn_near i j s b h =
      let u = parser_step lib matcher j (get_or s.parsers j ended) s in
      let t = parser_step-Turns j (get_or s.parsers j ended) s refl b h in
      let other : i ≢ j → far i u ≤ far i s = t.others i in
      let own : i ≡ j → (far i u + 1 ≤ far i s) ⊎ ((far i u ≡ 0) × (far i s ≡ 0)) = λ g.
        subst (λ x. (far x u + 1 ≤ far x s) ⊎ ((far x u ≡ 0) × (far x s ≡ 0))) (sym g) t.itself in
      elim (ℕ_discrete i j) [
        | yes g ↦
            let near = own g in
            elim near [ inl k ↦ ground (arith, g, k) | inr k ↦ ground (arith, g, k.0) ]
        | no g ↦ let near = other g in ground (arith, g, near)
      ]

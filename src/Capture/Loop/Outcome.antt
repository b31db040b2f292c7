-- ===== src/Capture/Loop/Outcome.antt =====
-- When `capture_loop` ends, and what it has counted then.
use mathlib.Core.Option
use capptpl.Base.{
  Bool, Bool-cases, List, Option, [], ap, append-nil, arith, false, if◌then◌else◌, inl, inr, length,
  length-append, none, refl, some, sym, true, ℕ, ◌%◌, ◌++◌, ◌+◌, ◌<◌, ◌^◌, ◌||◌, ◌∙◌, ◌∷◌, ◌≡◌,
}
use capptpl.Capture.{Capture, Stats, capture_loop_stop, capture_stats}
use capptpl.Capture.Loop.{Round, call_backs, capture_loop, capture_rounds, count_captured, dispatch}

-- The rounds up to the first one that stops the loop, if there is one.
pub ending_rounds : List Round → Option (List Round)
ending_rounds [] = none
ending_rounds (r ∷ rs) =
    if r.stopped || r.failed then some (r ∷ []) else Option.map (λ l. r ∷ l) (ending_rounds rs)

-- The packets of some rounds.
pub captured_in : List Round → List ℕ
captured_in [] = []
captured_in (r ∷ rs) = r.caplens ++ captured_in rs

pub total : List ℕ → ℕ
total [] = 0
total (n ∷ ns) = n + total ns

-- A capture with so many packets and bytes more.
pub counted : List ℕ → Capture → Capture
counted ns c = record c {
  pkts = (c.pkts + length ns) % 2 ^ 64;
  bytes = (c.bytes + total ns) % 2 ^ 64;
}

abbrev IsSmall : Capture → Type 0
IsSmall c = (c.pkts < 2 ^ 64) × (c.bytes < 2 ^ 64)

capture-eq :
    (c : Capture) {a b a' b' : ℕ}
    → a ≡ a'
    → b ≡ b'
    → (record c { pkts = a; bytes = b }) ≡ (record c { pkts = a'; bytes = b' })
capture-eq c e f = cc

call_backs-counted : (ns : List ℕ) (c : Capture) → IsSmall c → call_backs ns c ≡ counted ns c
unfolding call_backs counted count_captured total
call_backs-counted [] c (h, k) = capture-eq c (omega arith) (omega arith)
call_backs-counted (n ∷ ns) c (h, k) =
    call_backs-counted ns (count_captured n c) (omega arith, omega arith)
    ∙ capture-eq c (omega arith) (omega arith)

pub any_stopped : List Round → Bool
any_stopped [] = false
any_stopped (r ∷ rs) = r.stopped || any_stopped rs

-- The capture behind some rounds.
pub after : List Round → Capture → Capture
after rs c = record (counted (captured_in rs) c) { shutdown = any_stopped rs }

same_parts :
    (c : Capture) {a b a' b' : ℕ} {s s' : Bool}
    → a ≡ a'
    → b ≡ b'
    → s ≡ s'
    → (record c { pkts = a; bytes = b; shutdown = s })
      ≡ (record c { pkts = a'; bytes = b'; shutdown = s' })
same_parts c e f g = cc

one_round :
    (r : Round) (c : Capture)
    → c.shutdown ≡ false
    → c.handle ≡ true
    → IsSmall c
    → dispatch r c ≡ after (r ∷ []) c
unfolding dispatch after any_stopped captured_in counted capture_loop_stop
one_round r c s h k =
    rw (call_backs-counted r.caplens c k, append-nil r.caplens)
      (elim (Bool-cases r.stopped) [ inl e ↦ rw (e, h) | inr e ↦ rw e (same_parts c refl refl s) ])

total-append : (ms ns : List ℕ) → total (ms ++ ns) ≡ total ms + total ns
unfolding total
total-append [] ns = omega arith
total-append (m ∷ ms) ns = omega (arith, total-append ms ns)

round_then :
    (r : Round) (rs : List Round) (c : Capture)
    → r.stopped ≡ false
    → after rs (after (r ∷ []) c) ≡ after (r ∷ rs) c
unfolding after counted captured_in any_stopped total
round_then r rs c h =
    same_parts c
      (omega (arith, length-append {0} r.caplens [], length-append {0} r.caplens (captured_in rs)))
      (omega (arith, total-append r.caplens [], total-append r.caplens (captured_in rs))) (rw h)

stopped_rounds : (rs : List Round) (c : Capture) → c.shutdown ≡ true → capture_rounds rs c ≡ some c
unfolding capture_rounds
stopped_rounds [] c h = rw h
stopped_rounds (r ∷ rs) c h = rw h

map-same :
    {A B C : Type 0} (f : B → C) (g : A → B) (k : A → C) (o : Option A)
    → ((x : A) → f (g x) ≡ k x)
    → Option.map f (Option.map g o) ≡ Option.map k o
map-same f g k none h = refl
map-same f g k (some x) h = ap some (h x)

round_step :
    (r : Round) (rs : List Round) (c : Capture)
    → c.shutdown ≡ false
    → capture_rounds (r ∷ rs) c
      ≡ (if r.failed then some (dispatch r c) else capture_rounds rs (dispatch r c))
unfolding capture_rounds
round_step r rs c s = simp s

no_rounds : (c : Capture) → c.shutdown ≡ false → capture_rounds [] c ≡ none
unfolding capture_rounds
no_rounds c s = rw s

after-shutdown : (r : Round) (c : Capture) → (after (r ∷ []) c).shutdown ≡ r.stopped
unfolding after any_stopped
after-shutdown r c = elim (Bool-cases r.stopped) [ inl e ↦ rw e | inr e ↦ rw e ]

after-handle : (rs : List Round) (c : Capture) → (after rs c).handle ≡ c.handle
unfolding after counted
after-handle rs c = refl

after-IsSmall : (rs : List Round) (c : Capture) → IsSmall (after rs c)
unfolding after counted
after-IsSmall rs c = (omega arith, omega arith)

rounds_lem :
    (rs : List Round) (c : Capture)
    → c.shutdown ≡ false
    → c.handle ≡ true
    → IsSmall c
    → capture_rounds rs c ≡ Option.map (λ l. after l c) (ending_rounds rs)
unfolding ending_rounds
rounds_lem [] c s h k = no_rounds c s
rounds_lem (r ∷ rs) c s h k =
    let c' = after (r ∷ []) c in
    round_step r rs c s
    ∙ ap (λ x. if r.failed then some x else capture_rounds rs x) (one_round r c s h k)
    ∙ elim (Bool-cases r.failed) [
      | inl f ↦ elim (Bool-cases r.stopped) [ inl e ↦ simp (f, e) | inr e ↦ simp (f, e) ]
      | inr f ↦ elim (Bool-cases r.stopped) [
        | inl e ↦ simp (f, e) (stopped_rounds rs c' (after-shutdown r c ∙ e))
        | inr e ↦
            simp (f, e)
              (rounds_lem rs c' (after-shutdown r c ∙ e) (after-handle (r ∷ []) c ∙ h)
                  (after-IsSmall (r ∷ []) c)
                ∙ sym (
                    map-same (λ l. after l c) (λ l. r ∷ l) (λ l. after l c') (ending_rounds rs)
                      (λ l. sym (round_then r l c e))))
      ]
    ]

-- What the thread leaves behind some rounds.
pub left_behind : Option Stats → Capture → List Round → Capture
left_behind answer c rs = record c {
  shutdown = any_stopped rs;
  pkts = length (captured_in rs) % 2 ^ 64;
  bytes = total (captured_in rs) % 2 ^ 64;
  ps = elim answer [ none ↦ c.ps | some s ↦ s ];
}

finished :
    (answer : Option Stats) (c : Capture) (rs : List Round)
    → c.handle ≡ true
    → (capture_stats answer (after rs (record c { shutdown = false; pkts = 0; bytes = 0 }))).1
      ≡ left_behind answer c rs
unfolding capture_stats after left_behind counted
finished none c rs h =
    rw h (same_parts (record c { handle = true }) (omega arith) (omega arith) refl)
finished (some s) c rs h =
    rw h (same_parts (record c { handle = true; ps = s }) (omega arith) (omega arith) refl)

-- The end of the thread, where the loop has ended.
abbrev ends_with : Option Stats → Option Capture → Option Capture
ends_with answer o = elim o [ none ↦ none | some c' ↦ some (capture_stats answer c').1 ]

all_finished :
    (answer : Option Stats) (c : Capture) (o : Option (List Round))
    → c.handle ≡ true
    → ends_with answer
        (Option.map (λ l. after l (record c { shutdown = false; pkts = 0; bytes = 0 })) o)
      ≡ Option.map (left_behind answer c) o
all_finished answer c none h = refl
all_finished answer c (some l) h = ap some (finished answer c l h)

-- With an open handle, and whatever libpcap delivers: the loop of the capture's thread ends exactly
-- where a round has failed or `capture_loop_stop` has been called in it, and then the counters are,
-- modulo 2 ^ 64, the number and the bytes of the packets of the rounds up to that one, whatever
-- they were before; the statistics are those of libpcap, or the old ones where it fails, and
-- nothing else has changed.
pub capture_loop_lem :
    (answer : Option Stats) (rs : List Round) (c : Capture)
    → c.handle ≡ true
    → capture_loop answer rs c ≡ Option.map (left_behind answer c) (ending_rounds rs)
unfolding capture_loop
capture_loop_lem answer rs c h =
    let start = record c { shutdown = false; pkts = 0; bytes = 0 } in
    ap (ends_with answer) (rounds_lem rs start refl h (omega arith, omega arith))
    ∙ all_finished answer c (ending_rounds rs) h

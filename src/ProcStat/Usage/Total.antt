-- ===== src/ProcStat/Usage/Total.antt =====
-- What the loop of `main` of lib/proc_cpu_stat.c computes, against the readings that succeed.
use capptpl.Base.{
  Bool, Bytes, List, Option, [], ap, arith, false, length, refl, suc, true, ℕ, ◌++◌, ◌+◌, ◌<◌, ◌^◌,
  ◌∙◌, ◌∷◌, ◌≡◌, ◌≤◌,
}
use capptpl.Base.Chars.{IsInt, to_int}
use capptpl.Base.Int.{+ℤ_assoc, +ℤ_comm, negsuc, pos, ℤ, ◌+ℤ◌, ◌-ℤ◌}
use capptpl.ProcStat.{Times}
use capptpl.ProcStat.Usage.{
  Round, Usage, Watch, after_read, read_proc_stat, ticks, usage_of, watch_process, watch_start,
}

pub record Reading : Type 0 where
  pub times : Times
  pub time : ℤ

abbrev found : ℤ → Bool × Times → List Reading
found time (true, t) = record { times = t; time = time } ∷ []
found time (false, t) = []

-- The readings that succeed.
unfoldable pub readings : (Bytes → Option (List ℕ)) → Times → List Round → List Reading
readings scan t [] = []
readings scan t (r ∷ rs) =
    let p = read_proc_stat scan t r.file in found r.stat_time p ++ readings scan p.1 rs

-- From one reading to the next no time goes back, and an `int` holds what it goes forward.
abbrev pub IsSteadyFrom : Reading → List Reading → Type 0
IsSteadyFrom a [] = Unit
IsSteadyFrom a (b ∷ l) =
    (a.times.utime ≤ b.times.utime)
    × (b.times.utime < a.times.utime + 2 ^ 31)
    × (a.times.stime ≤ b.times.stime)
    × (b.times.stime < a.times.stime + 2 ^ 31)
    × IsInt (b.time -ℤ a.time)
    × IsSteadyFrom b l

abbrev pub IsSteady : List Reading → Type 0
IsSteady [] = Unit
IsSteady (a ∷ l) = IsSteadyFrom a l

pub last_of : Reading → List Reading → Reading
last_of a [] = a
last_of a (b ∷ l) = last_of b l

pub sum_of : (Usage → ℤ) → List Usage → ℤ
sum_of f [] = pos 0
sum_of f (x ∷ xs) = f x +ℤ sum_of f xs

-- The usages that are computed between the reading `a` and the reading `z`.
pub record Adds (usages : List Usage) (a z : Reading) : Type 0 where
  pub user : sum_of (λ l. l.user_ticks) usages +ℤ pos a.times.utime ≡ pos z.times.utime
  pub sys : sum_of (λ l. l.sys_ticks) usages +ℤ pos a.times.stime ≡ pos z.times.stime
  pub seconds : sum_of (λ l. l.period) usages +ℤ a.time ≡ z.time

abbrev pub Watched : List Usage → List Reading → Type 0
Watched usages [] = usages ≡ []
Watched usages (a ∷ l) = Adds usages a (last_of a l) × (length usages ≡ length l)

to_int_lem : (x : ℤ) → IsInt x → to_int x ≡ x
unfolding to_int
to_int_lem (pos n) h = ground arith
to_int_lem (negsuc n) h = ground arith

ticks_lem : (new old : ℕ) → old ≤ new → new < old + 2 ^ 31 → ticks new old +ℤ pos old ≡ pos new
unfolding ticks to_int ◌+ℤ◌
ticks_lem new old h k = ground arith

-ℤ_cancel : (a b : ℤ) → a -ℤ b +ℤ b ≡ a
unfolding ◌+ℤ◌ ◌-ℤ◌
-ℤ_cancel a b = ground arith

+ℤ_zero : (a : ℤ) → pos 0 +ℤ a ≡ a
unfolding ◌+ℤ◌
+ℤ_zero a = ground arith

-- The variables of `main` hold the reading `a`.
abbrev IsWatching : Watch → Reading → Type 0
IsWatching w a = (w.had_stat ≡ true) × (w.last_stat ≡ a.times) × (w.last_stat_time ≡ a.time)

Adds-cons :
    (x : Usage) (usages : List Usage) (a b z : Reading)
    → x.user_ticks +ℤ pos a.times.utime ≡ pos b.times.utime
    → x.sys_ticks +ℤ pos a.times.stime ≡ pos b.times.stime
    → x.period +ℤ a.time ≡ b.time
    → Adds usages b z
    → Adds (x ∷ usages) a z
unfolding sum_of
Adds-cons x usages a b z u s p h = record {
  user =
      chain x.user_ticks (sum_of (λ l. l.user_ticks) usages) (pos a.times.utime) (pos b.times.utime)
        (pos z.times.utime) u h.user;
  sys =
      chain x.sys_ticks (sum_of (λ l. l.sys_ticks) usages) (pos a.times.stime) (pos b.times.stime)
        (pos z.times.stime) s h.sys;
  seconds = chain x.period (sum_of (λ l. l.period) usages) a.time b.time z.time p h.seconds;
}
  where
    chain : (x y a b z : ℤ) → x +ℤ a ≡ b → y +ℤ b ≡ z → x +ℤ y +ℤ a ≡ z
    chain x y a b z e f = ap (λ k. k +ℤ a) (+ℤ_comm x y) ∙ +ℤ_assoc y x a ∙ ap (λ k. y +ℤ k) e ∙ f

-- A round after a reading `a`, where the later rounds behave.
round_Watched :
    (scan : Bytes → Option (List ℕ)) (rs : List Round) (w : Watch) (a : Reading) (time : ℤ)
    (p : Bool × Times)
    → IsWatching w a
    → IsSteadyFrom a (found time p ++ readings scan p.1 rs)
    → ((u : Watch) (b : Reading)
        → IsWatching u b
        → IsSteadyFrom b (readings scan u.stat rs)
        → Watched (watch_process scan rs u) (b ∷ readings scan u.stat rs))
    → Watched
        ((after_read time p w).0 ++ watch_process scan rs (after_read time p w).1)
        (a ∷ (found time p ++ readings scan p.1 rs))
unfolding after_read usage_of last_of
round_Watched scan rs w a time (false, t) (h, e, k) s later =
    later (record w { stat = t }) a (h, e, k) s
round_Watched scan rs w a time (true, t) (h, e, k) (u0, u1, s0, s1, p, s) later =
    let b : Reading = record { times = t; time = time } in
    let u : Watch = record { stat = t; last_stat = t; last_stat_time = time; had_stat = true } in
    let (adds, len) = later u b (refl, refl, refl) s in
    rw h (
      Adds-cons (usage_of t time w) (watch_process scan rs u) a b (last_of b (readings scan t rs))
          (rw e (ticks_lem t.utime a.times.utime u0 u1))
          (rw e (ticks_lem t.stime a.times.stime s0 s1))
          (rw k (rw (to_int_lem (time -ℤ a.time) p) (-ℤ_cancel time a.time))) adds,
      ap suc len,
    )

-- The loop after a reading `a`.
later_Watched :
    (scan : Bytes → Option (List ℕ)) (rs : List Round) (w : Watch) (a : Reading)
    → IsWatching w a
    → IsSteadyFrom a (readings scan w.stat rs)
    → Watched (watch_process scan rs w) (a ∷ readings scan w.stat rs)
unfolding watch_process readings sum_of last_of
later_Watched scan [] w a h s = (
  record {
    user = +ℤ_zero (pos a.times.utime);
    sys = +ℤ_zero (pos a.times.stime);
    seconds = +ℤ_zero a.time;
  },
  refl,
)
later_Watched scan (r ∷ rs) w a h s =
    round_Watched scan rs w a r.stat_time (read_proc_stat scan w.stat r.file) h s
      (later_Watched scan rs)

-- A round before any reading, where the later rounds behave.
start_Watched :
    (scan : Bytes → Option (List ℕ)) (rs : List Round) (w : Watch) (time : ℤ) (p : Bool × Times)
    → w.had_stat ≡ false
    → IsSteady (found time p ++ readings scan p.1 rs)
    → ((u : Watch)
        → u.had_stat ≡ false
        → IsSteady (readings scan u.stat rs)
        → Watched (watch_process scan rs u) (readings scan u.stat rs))
    → Watched
        ((after_read time p w).0 ++ watch_process scan rs (after_read time p w).1)
        (found time p ++ readings scan p.1 rs)
unfolding after_read
start_Watched scan rs w time (false, t) h s later = later (record w { stat = t }) h s
start_Watched scan rs w time (true, t) h s later =
    let b : Reading = record { times = t; time = time } in
    let u : Watch = record { stat = t; last_stat = t; last_stat_time = time; had_stat = true } in
    rw h (later_Watched scan rs u b (refl, refl, refl) s)

first_Watched :
    (scan : Bytes → Option (List ℕ)) (rs : List Round) (w : Watch)
    → w.had_stat ≡ false
    → IsSteady (readings scan w.stat rs)
    → Watched (watch_process scan rs w) (readings scan w.stat rs)
unfolding watch_process readings
first_Watched scan [] w h s = refl
first_Watched scan (r ∷ rs) w h s =
    start_Watched scan rs w r.stat_time (read_proc_stat scan w.stat r.file) h s
      (first_Watched scan rs)

-- Where from one reading to the next no time goes back, and each gap is less than 2 ^ 31 and fits
-- an `int`: the program computes and prints a usage once for each reading that succeeds but the first,
-- whatever rounds fail between them, and the user ticks, the system ticks and the seconds from which it
-- computes them add up to what the process has used and the time that has gone by from the first
-- such reading to the last.
pub watch_process-Watched :
    (scan : Bytes → Option (List ℕ)) (rs : List Round) (time : ℤ)
    → IsSteady (readings scan (watch_start time).stat rs)
    → Watched (watch_process scan rs (watch_start time)) (readings scan (watch_start time).stat rs)
unfolding watch_start
watch_process-Watched scan rs time s = first_Watched scan rs (watch_start time) refl s

-- ===== src/ProcStat/Usage.antt =====
-- lib/proc_cpu_stat.c, `read_proc_stat` and the loop of `main`, which prints every 3 seconds what a
-- process has used. The quotient that `cpu_usage` makes of two `double` is an argument.
pub mod Total
use capptpl.Base.{
  Bool, Bytes, List, Option, [], codes, false, if◌then◌else◌, ltb, map, none, some, suc, true, zero,
  ℕ, ◌++◌, ◌-◌, ◌==◌, ◌∷◌,
}
use capptpl.Base.Chars.{decimal_ℤ, to_int}
use capptpl.Base.Int.{pos, ℤ, ◌-ℤ◌}
use capptpl.Hex.Dump.Steps.{shown}
use capptpl.ProcStat.{Times, proc_stat_decode}

-- A call of `read_proc_stat` and of `time`: the content of /proc/PID/stat, if it can be opened.
pub record Round : Type 0 where
  pub file : Option Bytes
  pub stat_time : ℤ

-- What `fgets` puts into `n + 1` bytes.
unfoldable pub fgets : ℕ → Bytes → Bytes
fgets zero s = []
fgets (suc n) [] = []
fgets (suc n) (c ∷ s) = if c == 10 then c ∷ [] else c ∷ fgets n s

unfoldable pub read_proc_stat : (Bytes → Option (List ℕ)) → Times → Option Bytes → Bool × Times
unfolding fgets proc_stat_decode
read_proc_stat scan stat none = (false, stat)
read_proc_stat scan stat (some []) = (false, stat)
read_proc_stat scan stat (some (c ∷ s)) = proc_stat_decode scan stat (fgets 1023 (c ∷ s))

-- The arguments of `cpu_usage`, less the constant.
pub record Usage : Type 0 where
  pub period : ℤ
  pub user_ticks : ℤ
  pub sys_ticks : ℤ

-- The variables of `main`.
pub record Watch : Type 0 where
  pub stat : Times
  pub last_stat : Times
  pub last_stat_time : ℤ
  pub had_stat : Bool

-- `last_stat_time` starts with any value.
-- What is printed for them; `percent` is `cpu_usage` times 100 in the format `%.1f`.
unfoldable pub usage_text : (Usage → Bytes) → ℤ → Usage → Bytes
usage_text percent pid u =
    codes "pid "
    ++ decimal_ℤ pid
    ++ codes " in "
    ++ decimal_ℤ u.period
    ++ codes " seconds cpu usage:"
    ++ percent u
    ++ codes "%\n"

unfoldable pub watch_start : ℤ → Watch
watch_start time = record {
  stat = record { utime = 0; stime = 0; cutime = 0; cstime = 0 };
  last_stat = record { utime = 0; stime = 0; cutime = 0; cstime = 0 };
  last_stat_time = time;
  had_stat = false;
}

-- An `unsigned long` as an `int`; 0 where it would be less than 0.
unfoldable pub ticks : ℕ → ℕ → ℤ
unfolding to_int
ticks new old = to_int (if ltb old new then pos (new - old) else pos 0)

unfoldable pub usage_of : Times → ℤ → Watch → Usage
unfolding ticks to_int
usage_of stat time w = record {
  period = to_int (time -ℤ w.last_stat_time);
  user_ticks = ticks stat.utime w.last_stat.utime;
  sys_ticks = ticks stat.stime w.last_stat.stime;
}

-- The round where `read_proc_stat` has returned 0, and where it has not.
unfoldable pub after_read : ℤ → Bool × Times → Watch → List Usage × Watch
unfolding usage_of
after_read time (true, stat) w = (
  if w.had_stat then usage_of stat time w ∷ [] else [],
  record { stat = stat; last_stat = stat; last_stat_time = time; had_stat = true },
)
after_read time (false, stat) w = ([], record w { stat = stat })

-- The rounds of the loop, which has no end: what is given to `cpu_usage`.
unfoldable pub watch_process : (Bytes → Option (List ℕ)) → List Round → Watch → List Usage
unfolding read_proc_stat after_read
watch_process scan [] w = []
watch_process scan (r ∷ rs) w =
    let (shown, u) = after_read r.stat_time (read_proc_stat scan w.stat r.file) w in
    shown ++ watch_process scan rs u

-- What the rounds print.
unfoldable pub watch_texts :
    (Usage → Bytes) → ℤ → (Bytes → Option (List ℕ)) → List Round → Watch → List Bytes
unfolding usage_text watch_process
watch_texts percent pid scan rs w = map (usage_text percent pid) (watch_process scan rs w)

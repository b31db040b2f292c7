-- ===== src/ProcStat.antt =====
-- lib/proc_cpu_stat.c: `jump2utime` and `proc_stat_decode`, which find the times of a process in
-- the line of its /proc/PID/stat. `sscanf` is an argument.
pub mod Usage
pub mod Fields
use capptpl.Base.{
  Bool, Bytes, List, Option, [], c_str, false, if◌then◌else◌, none, some, true, ℕ, ◌%◌, ◌*◌, ◌+◌,
  ◌/◌, ◌==◌, ◌^◌, ◌∷◌,
}

-- The loop of `jump2utime` from some byte on; `space_count` is an `unsigned int`.
unfoldable pub jump_loop : ℕ → ℕ → Bytes → Option Bytes
jump_loop pos_space space_count [] = none
jump_loop pos_space space_count (c ∷ p) =
    let before_name_end = jump_loop pos_space (if c == b')' then 1 else 0) p in
    let next_field = jump_loop pos_space ((space_count + 1) % 2 ^ 32) p in
    let same_field = jump_loop pos_space space_count p in
    if space_count == 0
    then before_name_end
    else if c == b' '
    then if ((space_count + 1) % 2 ^ 32 + 1) % 2 ^ 32 == pos_space then some p else next_field
    else same_field

-- The text at the place that is found, or NULL.
unfoldable pub jump2utime : Bytes → ℕ → Option Bytes
unfolding jump_loop
jump2utime buf pos_space = jump_loop pos_space 0 (c_str buf)

-- The times of `struct proc_stat`, which are `unsigned long`.
pub record Times : Type 0 where
  pub utime : ℕ
  pub stime : ℕ
  pub cutime : ℕ
  pub cstime : ℕ

-- `%u` writes 32 bits, the low ones of an `unsigned long` where the low byte comes first.
unfoldable pub store_u32 : ℕ → ℕ → ℕ
store_u32 old v = old / 2 ^ 32 * 2 ^ 32 + v % 2 ^ 32

-- What `sscanf` has converted, in the order of its arguments.
unfoldable pub store_times : List ℕ → Times → Times
store_times (u ∷ s ∷ cu ∷ cs ∷ _) t = record {
  utime = store_u32 t.utime u;
  stime = store_u32 t.stime s;
  cutime = store_u32 t.cutime cu;
  cstime = store_u32 t.cstime cs;
}
store_times (u ∷ s ∷ cu ∷ []) t = record t {
  utime = store_u32 t.utime u;
  stime = store_u32 t.stime s;
  cutime = store_u32 t.cutime cu;
}
store_times (u ∷ s ∷ []) t = record t { utime = store_u32 t.utime u; stime = store_u32 t.stime s }
store_times (u ∷ []) t = record t { utime = store_u32 t.utime u }
store_times [] t = t

-- From the result of `sscanf` on; `none` is EOF.
unfoldable pub decoded : Times → Option (List ℕ) → Bool × Times
unfolding store_times
decoded t none = (false, t)
decoded t (some vs) = (true, store_times vs t)

-- Whether it returns 0, and the times. `scan` is `sscanf` with "%u %u %u %u".
unfoldable pub proc_stat_decode : (Bytes → Option (List ℕ)) → Times → Bytes → Bool × Times
unfolding jump2utime decoded
proc_stat_decode scan t buf = elim (jump2utime buf 14) [
  | none ↦ (false, t)
  | some p ↦ decoded t (scan p)
]

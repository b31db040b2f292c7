-- ===== src/Tests/ProcStat.antt =====
-- Lines of /proc/PID/stat; `sscanf` reads the first number.
use capptpl.Base.{
  Bytes, Lacks, List, Option, [], arith, c_str, codes, none, refl, some, true, ℕ, ◌++◌, ◌+◌, ◌∷◌,
  ◌≡◌,
}
use capptpl.Base.Chars.{digits_value, to_int}
use capptpl.Base.Int.{pos, ◌-ℤ◌}
use capptpl.ProcStat.{
  Times, decoded, jump2utime, jump_loop, proc_stat_decode, store_times, store_u32,
}
use capptpl.ProcStat.Fields.{field, fields_text, jump2utime-field, proc_stat_decode_lem}
use capptpl.ProcStat.Usage.{
  Round, after_read, fgets, read_proc_stat, ticks, usage_of, watch_process, watch_start,
}
use capptpl.ProcStat.Usage.Total.{IsSteady, Watched, readings, watch_process-Watched}

abbrev cat_name : Bytes
cat_name = codes "37 (cat"

abbrev eleven : List Bytes
eleven =
    codes "R"
    ∷ codes "3"
    ∷ codes "4"
    ∷ codes "5"
    ∷ codes "6"
    ∷ codes "7"
    ∷ codes "8"
    ∷ codes "9"
    ∷ codes "0"
    ∷ codes "1"
    ∷ codes "2"
    ∷ []

abbrev cat_line : Bytes
cat_line = cat_name ++ b')' ∷ fields_text (eleven ++ codes "21" ∷ codes "4" ∷ [])

abbrev first_number : Bytes → Option (List ℕ)
first_number p = some (digits_value 0 p ∷ [])

abbrev no_times : Times
no_times = record { utime = 0; stime = 0; cutime = 0; cstime = 0 }

cat_times : proc_stat_decode first_number no_times cat_line ≡ (true, record no_times { utime = 21 })
unfolding proc_stat_decode jump2utime jump_loop decoded store_times store_u32 c_str digits_value
cat_times = refl

cat_is_string : Lacks 0 cat_line
cat_is_string = omega arith

jump2utime-field_example : jump2utime cat_line (11 + 3) ≡ field (11 + 3) cat_line
jump2utime-field_example = jump2utime-field cat_line 11 cat_is_string (omega arith)

cat_decoded_lem :
    proc_stat_decode first_number no_times cat_line
    ≡ decoded no_times (first_number (codes "21" ++ fields_text (codes "4" ∷ [])))
cat_decoded_lem =
    proc_stat_decode_lem first_number no_times cat_name eleven (codes "21") (codes "4" ∷ [])
      (omega arith) (omega arith) refl cat_is_string (omega arith)

abbrev cat_later : Bytes
cat_later = cat_name ++ b')' ∷ fields_text (eleven ++ codes "35" ∷ codes "4" ∷ [])

abbrev four_rounds : List Round
four_rounds =
    record { file = none; stat_time = pos 100 }
    ∷ record { file = some cat_line; stat_time = pos 103 }
    ∷ record { file = some []; stat_time = pos 106 }
    ∷ record { file = some (cat_later ++ codes "\n"); stat_time = pos 109 }
    ∷ []

one_usage :
    watch_process first_number four_rounds (watch_start (pos 7))
    ≡ record { period = pos 6; user_ticks = pos 14; sys_ticks = pos 0 } ∷ []
unfolding watch_process watch_start read_proc_stat fgets after_read usage_of ticks to_int ◌-ℤ◌
    proc_stat_decode jump2utime jump_loop decoded store_times store_u32 c_str digits_value
one_usage = refl

four_rounds-IsSteady : IsSteady (readings first_number (watch_start (pos 7)).stat four_rounds)
unfolding readings watch_start read_proc_stat fgets proc_stat_decode jump2utime jump_loop decoded
    store_times store_u32 c_str digits_value ◌-ℤ◌
four_rounds-IsSteady =
    (omega arith, omega arith, omega arith, omega arith, (omega arith, omega arith), tt)

watch_process-Watched_example :
    Watched
      (watch_process first_number four_rounds (watch_start (pos 7)))
      (readings first_number (watch_start (pos 7)).stat four_rounds)
watch_process-Watched_example =
    watch_process-Watched first_number four_rounds (pos 7) four_rounds-IsSteady

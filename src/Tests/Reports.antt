-- ===== src/Tests/Reports.antt =====
-- The reports at concrete counters.
use capptpl.Base.{Lacks, arith, codes, false, if◌then◌else◌, length, ltb, none, some, true, ◌≡◌}
use capptpl.Base.Int.{pos}
use capptpl.Capture.{Capture, capture_stats}
use capptpl.Config.Json.{device_size}
use capptpl.Config.Json.Escape.{escape}
use capptpl.Packets.{Counters}
use capptpl.Reports.{capture_dump, capture_text, render, stats_fields, stats_text}
use capptpl.Reports.Dump.{capture_dump_cases}
use capptpl.Reports.Length.{stats_text-render}

abbrev quoted : Capture
quoted = record {
  device = codes "\\a\"";
  filter = codes "tcp";
  snaplen = pos 2048;
  buffer_size = pos 16;
  shutdown = false;
  pkts = 12;
  bytes = 18446744073709551615;
  ps = record { ps_recv = 3000000000; ps_drop = 0; ps_ifdrop = 1 };
  handle = true;
  bpf = false;
}

abbrev some_counts : Counters
some_counts = record { count = 3; bytes = 180; word_match_count = 1; regex_match_count = 0 }

quoted_stats_lem :
    stats_text quoted some_counts 5 4 ≡ render (stats_fields quoted some_counts 5 4) (codes " } }")
quoted_stats_lem = stats_text-render quoted some_counts 5 4 (record {
  pkts_fits = omega arith;
  bytes_fits = omega arith;
  count_fits = omega arith;
  parsed_fits = omega arith;
  words_fits = omega arith;
  regexes_fits = omega arith;
  messages_fits = omega arith;
  works_fits = omega arith;
})

device_is_string : Lacks 0 quoted.device
device_is_string = (λ e. cc, (λ e. cc, (λ e. cc, tt)))

capture_dump_cases_example : capture_dump none quoted ≡ (
    if ltb (length (escape quoted.device)) device_size
    then some (
      capture_text (capture_stats none quoted).1 (escape quoted.device),
      (capture_stats none quoted).1,
    )
    else none)
capture_dump_cases_example = capture_dump_cases none quoted (omega arith) device_is_string

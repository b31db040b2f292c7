-- ===== src/Reports.antt =====
-- The texts that apptpl's HTTP interface makes of the counters: `parser_dump` of
-- apptpl/parser.c, `capture_dump` of apptpl/capture.c and the text of `stats_handler` of
-- apptpl/api_handler.c, on a system that is not Windows.
pub mod Dump
pub mod Device
pub mod Length
use capptpl.Base.{Bytes, List, Option, [], codes, none, replicate, some, take, ℕ, ◌++◌, ◌-◌, ◌∷◌}
use capptpl.Base.Chars.{decimal, decimal_ℤ, to_int}
use capptpl.Base.Int.{pos}
use capptpl.Capture.{Capture, Stats, capture_stats}
use capptpl.Config.Json.{device_size, dump_device, read_text}
use capptpl.Packets.{Counters}

-- Text and a number, again and again, and a last text.
unfoldable pub render : List (Bytes × Bytes) → Bytes → Bytes
render [] last = last
render ((t, n) ∷ fields) last = t ++ (n ++ render fields last)

-- `%d` of an unsigned value of 32 bits.
unfoldable pub as_int : ℕ → Bytes
unfolding to_int decimal_ℤ
as_int n = decimal_ℤ (to_int (pos n))

unfoldable pub parser_dump : Counters → ℕ → ℕ → Bytes
unfolding render
parser_dump k alloc used =
    render
      ((codes "{ \"pkts\": ", decimal k.count)
        ∷ (codes ", \"bytes\": ", decimal k.bytes)
        ∷ (codes ", \"word_match_count\": ", decimal k.word_match_count)
        ∷ (codes ", \"regex_match_count\": ", decimal k.regex_match_count)
        ∷ (codes ",  \"chan_pkt\": { \"alloc\": ", as_int alloc)
        ∷ (codes ", \"used\": ", as_int used)
        ∷ [])
      (codes " } }")

-- The text of `capture_dump` around the device and the filter.
unfoldable pub capture_text : Capture → Bytes → Bytes
unfolding render
capture_text c device =
    render
      ((codes "{ \"pkts\": ", decimal c.pkts)
        ∷ (codes ", \"bytes\": ", decimal c.bytes)
        ∷ (codes ", \"pcap\": { \"ps_recv\": ", decimal c.ps.ps_recv)
        ∷ (codes ", \"ps_drop\": ", decimal c.ps.ps_drop)
        ∷ (codes ", \"ps_ifdrop\": ", decimal c.ps.ps_ifdrop)
        ∷ (codes " }, \"device\": \"", device)
        ∷ (codes "\", \"snaplen\": ", decimal_ℤ c.snaplen)
        ∷ (codes ", \"buffer_size\": ", decimal_ℤ c.buffer_size)
        ∷ (codes ", \"filter\": \"", c.filter)
        ∷ [])
      (codes "\" }")

-- The device's buffer as `%s` reads it; `none` is a write or a read outside it.
unfoldable pub dumped_device : Bytes → Option Bytes
unfolding read_text
dumped_device device = elim (dump_device device 0 0 (replicate device_size 0)) [
  | none ↦ none
  | some buf ↦ read_text buf
]

-- The rest of `capture_dump`: the text, and the capture with its new statistics.
unfoldable pub dump_with : Option Stats → Capture → Option Bytes → Option (Bytes × Capture)
unfolding capture_stats capture_text
dump_with answer c none = none
dump_with answer c (some device) =
    some (capture_text (capture_stats answer c).1 device, (capture_stats answer c).1)

unfoldable pub capture_dump : Option Stats → Capture → Option (Bytes × Capture)
unfolding dumped_device dump_with
capture_dump answer c = dump_with answer c (dumped_device c.device)

-- The arguments of `snprintf` in `stats_handler`.
unfoldable pub stats_fields : Capture → Counters → ℕ → ℕ → List (Bytes × Bytes)
unfolding as_int
stats_fields c k messages works =
    (codes "{ \"capture\": { \"pkts\": ", decimal c.pkts)
    ∷ (codes ", \"bytes\": ", decimal c.bytes)
    ∷ (codes ", \"pcap\": { \"ps_recv\": ", as_int c.ps.ps_recv)
    ∷ (codes ", \"ps_drop\": ", as_int c.ps.ps_drop)
    ∷ (codes ", \"ps_ifdrop\": ", as_int c.ps.ps_ifdrop)
    ∷ (codes " } },\"parser\": { \"pkts\": ", decimal k.count)
    ∷ (codes ", \"bytes\": ", decimal k.bytes)
    ∷ (codes ", \"word_match_count\": ", decimal k.word_match_count)
    ∷ (codes ", \"regex_match_count\": ", decimal k.regex_match_count)
    ∷ (codes " }, \"inputer\": { \"count\": ", decimal messages)
    ∷ (codes " },  \"worker\": { \"count\": ", decimal works)
    ∷ []

-- `char s[512]`, and `snprintf(s, sizeof(s)-1, …)`.
unfoldable pub stats_text : Capture → Counters → ℕ → ℕ → Bytes
unfolding render stats_fields
stats_text c k messages works =
    take (512 - 1 - 1) (render (stats_fields c k messages works) (codes " } }"))

-- ===== src/Tests/Http.antt =====
-- The HTTP interface at concrete requests.
use capptpl.Base.{
  Bytes, List, [], c_str, codes, false, map, none, refl, replicate, some, str_eq, true, ◌∷◌, ◌≡◌,
}
use capptpl.Base.Chars.{decimal, decimal_ℤ}
use capptpl.Base.Int.{pos}
use capptpl.Capture.{Capture}
use capptpl.Config.{zeroed}
use capptpl.Config.Json.{
  concat_texts, config2json, dump_device, escape_device, put_char, read_text, report_parts,
}
use capptpl.Http.{App, Lib, add_routes, api_route_init, find_route, get_method, head_method}
use capptpl.Http.Dispatch.{
  IsReportable, Sends, api_handler-Sends, code_of, decoded_reply, page_reply, path_reply,
  replies_for, uri_reply,
}
use capptpl.Http.Handle.{api_handler}
use capptpl.Http.Loop.{LoopEvent, request, signal, timer}
use capptpl.Http.Loop.Served.{Served, served_replies}
use capptpl.Packets.{no_counts}
use capptpl.Reports.{capture_dump, dump_with, dumped_device}

abbrev pub closed : Capture
closed = record {
  device = codes "eth0";
  filter = [];
  snaplen = pos 0;
  buffer_size = pos 0;
  shutdown = false;
  pkts = 0;
  bytes = 0;
  ps = record { ps_recv = 0; ps_drop = 0; ps_ifdrop = 0 };
  handle = false;
  bpf = false;
}

abbrev app : App
app = record {
  config = zeroed;
  captr = closed;
  counters = no_counts;
  alloc = 0;
  used = 0;
  received_count = 0;
  worker_count = 0;
}

-- Libraries that take every URI for a path.
abbrev pub plain_lib : Lib
plain_lib = record {
  uri_parse = λ uri. some (some uri);
  uridecode = λ path. some path;
  status_text = some (codes "{}");
  stats = none;
  build_time = codes "today";
}

config_is_shown : (t : Bytes) × (config2json zeroed ≡ some t)
unfolding config2json report_parts concat_texts read_text zeroed escape_device c_str decimal
    decimal_ℤ
config_is_shown = (_, refl)

dump_is_shown : (r : Bytes × Capture) × (capture_dump none closed ≡ some r)
unfolding capture_dump dump_with dumped_device read_text dump_device put_char
dump_is_shown = (_, refl)

app-IsReportable : IsReportable plain_lib app
app-IsReportable = (λ e. cc (config_is_shown.1, e), λ e. cc (dump_is_shown.1, e))

seven_added : (api_route_init (replicate 7 true)).0 ≡ true
unfolding api_route_init add_routes
seven_added = refl

head_stats-Sends : Sends (replies_for plain_lib app head_method (codes "/stats")) [] (
    api_handler plain_lib (api_route_init (replicate 7 true)).1 head_method (codes "/stats") app [])
head_stats-Sends =
    api_handler-Sends (replicate 7 true) plain_lib app head_method (codes "/stats") seven_added
      app-IsReportable

abbrev one_hour : List LoopEvent
one_hour =
    request get_method (codes "/version") app
    ∷ timer
    ∷ signal 8 1
    ∷ request head_method (codes "/stats") app
    ∷ signal 8 15
    ∷ request get_method (codes "/help") app
    ∷ []

two_served : map code_of (served_replies plain_lib one_hour) ≡ 200 ∷ 404 ∷ []
unfolding served_replies replies_for uri_reply decoded_reply path_reply page_reply find_route str_eq
    code_of
two_served = refl

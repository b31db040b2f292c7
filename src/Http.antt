-- ===== src/Http.antt =====
-- apptpl/api_handler.c: the table of routes and the handlers of the pages.
-- libevent and cJSON are a parameter. `evbuffer_new` is taken to succeed: the code does not test
-- it. A handler gives what it sends; what it allocates is on a ledger.
pub mod Loop
pub mod Live
pub mod Handle
pub mod Routes
pub mod Dispatch
use capptpl.Base.{
  Bool, Bytes, List, Option, [], codes, false, if◌then◌else◌, none, some, str_eq, true, ℕ, ◌++◌,
  ◌∷◌,
}
use capptpl.Base.Ledger.{M, acquire, release}
use capptpl.Base.State.{pure, ◌>>◌}
use capptpl.Capture.{Capture, Stats, capture_stats}
use capptpl.Config.{Config}
use capptpl.Config.Json.{config2json}
use capptpl.Packets.{Counters}
use capptpl.Reports.{capture_dump, parser_dump, stats_text}

pub data Method : Type 0 where
  get_method head_method other_method : Method

pub data Page : Type 0 where
  status_page help_page version_page stats_page config_page dump_page : Page

-- `struct api_route`
pub record Route : Type 0 where
  pub path : Bytes
  pub page : Page

pub data Resource : Type 0 where
  decoded_uri decoded_path json_root json_text evbuffer report parser_text capture_text_copy :
      Resource

abbrev pub tag : Resource → ℕ
tag decoded_uri = 0
tag decoded_path = 1
tag json_root = 2
tag json_text = 3
tag evbuffer = 4
tag report = 5
tag parser_text = 6
tag capture_text_copy = 7

-- A reply is a 200 with a content type and a body, or an error with its code.
pub data Reply : Type 0 where
  reply : Bytes → Bytes → Reply
  error_reply : ℕ → Reply

-- What the handlers read of `struct app`.
pub record App : Type 0 where
  pub config : Config
  pub captr : Capture
  pub counters : Counters
  pub alloc : ℕ
  pub used : ℕ
  pub received_count : ℕ
  pub worker_count : ℕ

-- What the libraries answer: the URI's path, if it can be parsed and has one, the decoded path,
-- the status text, if cJSON can parse its template, the statistics of libpcap, and `__DATE__` and
-- `__TIME__`.
pub record Lib : Type 0 where
  pub uri_parse : Bytes → Option (Option Bytes)
  pub uridecode : Bytes → Option Bytes
  pub status_text : Option Bytes
  pub stats : Option Stats
  pub build_time : Bytes

abbrev pub json_type : Bytes
json_type = codes "application/json; charset=UTF-8"

abbrev pub html_type : Bytes
html_type = codes "text/html; charset=UTF-8"

-- The routes in the order in which `api_route_init` adds them.
abbrev pub all_routes : List Route
all_routes =
    record { path = codes "/"; page = status_page }
    ∷ record { path = codes "/help"; page = help_page }
    ∷ record { path = codes "/status"; page = status_page }
    ∷ record { path = codes "/version"; page = version_page }
    ∷ record { path = codes "/stats"; page = stats_page }
    ∷ record { path = codes "/config"; page = config_page }
    ∷ record { path = codes "/dump"; page = dump_page }
    ∷ []

-- A route for each memory that is there, up to the first that is not.
unfoldable pub add_routes : List Bool → List Route → List Route → Bool × List Route
add_routes ms [] routes = (true, routes)
add_routes [] (r ∷ rs) routes = (false, routes)
add_routes (false ∷ ms) (r ∷ rs) routes = (false, routes)
add_routes (true ∷ ms) (r ∷ rs) routes = add_routes ms rs (routes ++ r ∷ [])

-- Whether it returns 0, and the table; `ms` says which memory is there.
unfoldable pub api_route_init : List Bool → Bool × List Route
unfolding add_routes
api_route_init ms = add_routes ms all_routes []

-- `HASH_FIND_STR`: the entry with this key. The hash table of uthash is the list of its entries.
unfoldable pub find_route : List Route → Bytes → Option Page
find_route [] p = none
find_route (r ∷ rs) p = if str_eq r.path p then some r.page else find_route rs p

abbrev pub help_text : Bytes
help_text =
    codes "<html><head><title>apptpl api interface</title></head>\n<body>\n"
    ++ codes "<a href=\"/status\">/status</a>  show status</br>\n"
    ++ codes "<a href=\"/help\">/help</a>  show this page</br>\n"
    ++ codes "<a href=\"/version\">/version</a>  show version</br>\n"
    ++ codes "<a href=\"/stats\">/stats</a>  show statistics</br>\n"
    ++ codes "<a href=\"/config\">/config</a>  show config</br>\n"
    ++ codes "<a href=\"/dump\">/dump</a>  dump app inner infomations</br>\n"
    ++ codes "</body></html>"

-- The texts of the parser and the capture, put together.
unfoldable pub dump_text : App → Bytes → Bytes
unfolding parser_dump
dump_text app text =
    codes "{ \"parser\": "
    ++ parser_dump app.counters app.alloc app.used
    ++ codes ", \"capture\": "
    ++ text
    ++ codes " }"

module _ (lib : Lib) where
  open lib use {status_text, stats, build_time}

  -- A handler: the application after it, and what it sends.
  abbrev pub Handler : Type 0
  Handler = App → M Resource (App × List Reply)

  -- The end of every handler that has a body.
  unfoldable pub send_body : Bytes → Bytes → Handler
  send_body type body app =
      acquire evbuffer >> release tag evbuffer >> pure (app, reply type body ∷ [])

  unfoldable pub send_error : ℕ → Handler
  send_error code app = pure (app, error_reply code ∷ [])

  unfoldable pub status_handler : Handler
  unfolding send_error
  status_handler app = elim status_text [
    | none ↦ send_error 500 app
    | some text ↦ do
      acquire json_root
      acquire json_text
      acquire evbuffer
      release tag json_text
      release tag json_root
      release tag evbuffer
      pure (app, reply json_type text ∷ [])
  ]

  unfoldable pub help_handler : Handler
  unfolding send_body
  help_handler app = send_body html_type help_text app

  unfoldable pub version_handler : Handler
  unfolding send_body
  version_handler app =
      send_body json_type
        (codes "{\"version\": \""
          ++ codes "1.7.0"
          ++ codes "\", \"build_time\": \""
          ++ build_time
          ++ codes "\" }")
        app

  unfoldable pub stats_handler : Method → Handler
  unfolding send_error send_body capture_stats stats_text
  stats_handler get_method app =
      let c = (capture_stats stats app.captr).1 in
      send_body json_type (stats_text c app.counters app.received_count app.worker_count)
        (record app { captr = c })
  stats_handler _ app = send_error 404 app

  -- `config2json` gives memory with the text.
  unfoldable pub config_handler : Method → Handler
  unfolding send_error config2json
  config_handler get_method app = elim (config2json app.config) [
    | none ↦ λ live. none
    | some text ↦ do
      acquire report
      acquire evbuffer
      release tag evbuffer
      release tag report
      pure (app, reply json_type text ∷ [])
  ]
  config_handler _ app = send_error 404 app

  -- `sdsnew` is taken to succeed: both dump functions go on with its result.
  unfoldable pub dump_handler : Method → Handler
  unfolding send_error dump_text capture_dump
  dump_handler get_method app = elim (capture_dump stats app.captr) [
    | none ↦ λ live. none
    | some (text, c) ↦ do
      acquire parser_text
      acquire evbuffer
      release tag parser_text
      acquire capture_text_copy
      release tag capture_text_copy
      release tag evbuffer
      pure (record app { captr = c }, reply json_type (dump_text app text) ∷ [])
  ]
  dump_handler _ app = send_error 404 app

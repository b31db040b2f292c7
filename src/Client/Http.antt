-- ===== src/Client/Http.antt =====
-- apptpl2/api_handler.c: the table of routes, the handlers and `api_handler` of the second program.
-- libevent and cJSON are a parameter, as for the first one; a handler gives what it sends, and what
-- it allocates is on a ledger.
pub mod Dispatch
use capptpl.Base.{Bool, Bytes, List, Option, [], codes, none, some, ℕ, ◌++◌, ◌∷◌}
use capptpl.Base.Chars.{decimal}
use capptpl.Base.Ledger.{M, acquire, pure, release, ◌>>=◌, ◌>>◌}
use capptpl.Client.{ClientConfig}
use capptpl.Client.Report.{client_config2json}
use capptpl.Http.{
  Method, Page, Reply, Resource, Route, add_routes, config_page, decoded_path, decoded_uri,
  error_reply, evbuffer, find_route, get_method, json_root, json_text, json_type, other_method,
  reply, report, stats_page, status_page, tag, version_page,
}

-- What the libraries answer beside those of the first program: the number of a method.
pub record ClientLib : Type 0 where
  pub uri_parse : Bytes → Option (Option Bytes)
  pub uridecode : Bytes → Option Bytes
  pub status_text : Option Bytes
  pub method_number : Method → ℕ
  pub build_time : Bytes

abbrev pub client_routes : List Route
client_routes =
    record { path = codes "/"; page = status_page }
    ∷ record { path = codes "/status"; page = status_page }
    ∷ record { path = codes "/version"; page = version_page }
    ∷ record { path = codes "/stats"; page = stats_page }
    ∷ record { path = codes "/config"; page = config_page }
    ∷ []

-- Whether `api_route_init` returns 0, and the table; `ms` says which memory is there.
unfoldable pub client_route_init : List Bool → Bool × List Route
unfolding add_routes
client_route_init ms = add_routes ms client_routes []

-- The path, where there is one.
abbrev pub or_slash : Option Bytes → Bytes
or_slash none = codes "/"
or_slash (some p) = p

module _ (lib : ClientLib) where
  open lib use {uri_parse, uridecode, status_text, method_number, build_time}

  -- A handler gives what it sends.
  abbrev pub ClientHandler : Type 0
  ClientHandler = M Resource (List Reply)

  -- The end of every handler that has a body.
  unfoldable pub send_text : Bytes → Bytes → ClientHandler
  send_text type body = acquire evbuffer >> release tag evbuffer >> pure (reply type body ∷ [])

  -- The text of `cJSON_PrintUnformatted` is not freed.
  unfoldable pub client_status_handler : ClientHandler
  client_status_handler = elim status_text [
    | none ↦ pure (error_reply 500 ∷ [])
    | some text ↦ do
      acquire json_root
      acquire evbuffer
      acquire json_text
      release tag json_root
      release tag evbuffer
      pure (reply json_type text ∷ [])
  ]

  unfoldable pub client_version_handler : ClientHandler
  unfolding send_text
  client_version_handler = send_text json_type (
      codes "{\"version\": \""
      ++ codes "1.7.0"
      ++ codes "\", \"build_time\": \""
      ++ build_time
      ++ codes "\" }")

  unfoldable pub client_stats_handler : Method → ClientHandler
  unfolding send_text
  client_stats_handler m =
      send_text (codes "text/plain; charset=UTF-8") (
        codes "It works! stats is statistic of program\n"
        ++ decimal (method_number m)
        ++ codes "\n")

  -- `config2json` gives memory with the text.
  unfoldable pub client_config_handler : Method → ClientConfig → ClientHandler
  unfolding client_config2json
  client_config_handler get_method c = elim (client_config2json c) [
    | none ↦ λ live. none
    | some text ↦ do
      acquire report
      acquire evbuffer
      release tag evbuffer
      release tag report
      pure (reply json_type text ∷ [])
  ]
  client_config_handler _ c = pure (error_reply 404 ∷ [])

  -- The call of the route's function; the table has no other pages.
  unfoldable pub client_page : Page → Method → ClientConfig → ClientHandler
  unfolding client_status_handler client_version_handler client_stats_handler client_config_handler
  client_page status_page m c = client_status_handler
  client_page version_page m c = client_version_handler
  client_page stats_page m c = client_stats_handler m
  client_page config_page m c = client_config_handler m c
  client_page _ m c = pure (error_reply 404 ∷ [])

  -- The call, or the label `err`.
  unfoldable pub client_route : Option Page → Method → ClientConfig → ClientHandler
  unfolding client_page
  client_route none m c = pure (error_reply 404 ∷ [])
  client_route (some p) m c = client_page p m c

  -- From the decoded path on.
  unfoldable pub client_path : List Route → Method → ClientConfig → Option Bytes → ClientHandler
  unfolding find_route client_route
  client_path routes m c none = release tag decoded_uri >> pure (error_reply 404 ∷ [])
  client_path routes m c (some p) =
      acquire decoded_path
      >> (client_route (find_route routes p) m c >>= λ r.
          release tag decoded_uri >> release tag decoded_path >> pure r)

  -- From the parsed URI on. A wrong API key is only logged.
  unfoldable pub client_uri :
      List Route → Method → ClientConfig → Option (Option Bytes) → ClientHandler
  unfolding client_path
  client_uri routes m c none = pure (error_reply 400 ∷ [])
  client_uri routes m c (some path) =
      acquire decoded_uri >> client_path routes m c (uridecode (or_slash path))

  unfoldable pub client_api_handler : List Route → Method → Bytes → ClientConfig → ClientHandler
  unfolding client_uri
  client_api_handler routes other_method uri c = pure []
  client_api_handler routes m uri c = client_uri routes m c (uri_parse uri)

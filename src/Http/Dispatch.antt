-- ===== src/Http/Dispatch.antt =====
-- What `api_handler` answers to a request, and what it leaves allocated.
use mathlib.Core.Option
use capptpl.Base.{
  Bool, Bytes, List, Option, Option-cases, [], codes, inl, inr, none, refl, some, true, ℕ, ◌++◌,
  ◌∷◌, ◌≡◌, ◌≢◌,
}
use capptpl.Base.Ledger.{>>=-some}
use capptpl.Capture.{capture_stats}
use capptpl.Config.Json.{config2json}
use capptpl.Http.{
  App, Lib, Method, Page, Reply, Resource, all_routes, api_route_init, config_handler, config_page,
  decoded_path, decoded_uri, dump_handler, dump_page, dump_text, error_reply, find_route,
  get_method, head_method, help_handler, help_page, help_text, html_type, json_type, other_method,
  reply, send_body, send_error, stats_handler, stats_page, status_handler, status_page,
  version_handler, version_page,
}
use capptpl.Http.Handle.{
  api_handler, find_and_handle, handle_path, handle_uri, page_handler, path_or_root,
}
use capptpl.Http.Routes.{api_route_init_lem}
use capptpl.Reports.{capture_dump, stats_text}

unfoldable pub code_of : Reply → ℕ
code_of (reply type body) = 200
code_of (error_reply code) = code

-- A text, where it can be made.
abbrev shown : Option Bytes → Bytes
shown none = []
shown (some t) = t

-- What each page replies: a page that shows the state is there for GET only.
unfoldable pub page_reply : Lib → App → Method → Page → Reply
page_reply lib app m status_page = elim lib.status_text [
  | none ↦ error_reply 500
  | some t ↦ reply json_type t
]
page_reply lib app m help_page = reply html_type help_text
page_reply lib app m version_page = reply json_type (
    codes "{\"version\": \""
    ++ codes "1.7.0"
    ++ codes "\", \"build_time\": \""
    ++ lib.build_time
    ++ codes "\" }")
page_reply lib app get_method stats_page = reply json_type (
    stats_text (capture_stats lib.stats app.captr).1 app.counters app.received_count
      app.worker_count)
page_reply lib app get_method config_page = reply json_type (shown (config2json app.config))
page_reply lib app get_method dump_page =
    reply json_type
      (dump_text app (shown (Option.map (λ r. r.0) (capture_dump lib.stats app.captr))))
page_reply lib app _ _ = error_reply 404

unfoldable pub path_reply : Lib → App → Method → Option Page → Reply
unfolding page_reply
path_reply lib app m none = error_reply 404
path_reply lib app m (some p) = page_reply lib app m p

unfoldable pub decoded_reply : Lib → App → Method → Option Bytes → Reply
unfolding path_reply find_route
decoded_reply lib app m none = error_reply 404
decoded_reply lib app m (some p) = path_reply lib app m (find_route all_routes p)

unfoldable pub uri_reply : Lib → App → Method → Option (Option Bytes) → Reply
unfolding decoded_reply
uri_reply lib app m none = error_reply 400
uri_reply lib app m (some path) = decoded_reply lib app m (lib.uridecode (path_or_root lib path))

-- All replies to a request.
unfoldable pub replies_for : Lib → App → Method → Bytes → List Reply
unfolding uri_reply
replies_for lib app other_method uri = []
replies_for lib app m uri = uri_reply lib app m (lib.uri_parse uri) ∷ []

-- The configuration and the capture can be shown.
abbrev pub IsReportable : Lib → App → Type 0
IsReportable lib app = (config2json app.config ≢ none) × (capture_dump lib.stats app.captr ≢ none)

-- What a handler does: it sends these replies and leaves the ledger as it was.
abbrev pub Sends : List Reply → List Resource → Option ((App × List Reply) × List Resource) → Type 0
Sends rs live o = (app' : App) × (o ≡ some ((app', rs), live))

module _ (lib : Lib) (app : App) (ok : IsReportable lib app) where
  status-Sends :
      (live : List Resource)
      → Sends (page_reply lib app get_method status_page ∷ []) live (status_handler lib app live)
  unfolding status_handler send_error page_reply
  status-Sends live = elim (Option-cases lib.status_text) [
    | inl e ↦ (app, rw (e, status_handler, page_reply) refl)
    | inr (t, e) ↦ (app, rw (e, status_handler, page_reply) refl)
  ]

  config-Sends :
      (live : List Resource)
      → Sends
          (page_reply lib app get_method config_page ∷ [])
          live
          (config_handler lib get_method app live)
  unfolding config_handler page_reply
  config-Sends live = elim (Option-cases (config2json app.config)) [
    | inl e ↦ absurd (ok.0 e)
    | inr (t, e) ↦ (app, rw (e, config_handler, page_reply) refl)
  ]

  dump-Sends :
      (live : List Resource)
      → Sends
          (page_reply lib app get_method dump_page ∷ [])
          live
          (dump_handler lib get_method app live)
  unfolding dump_handler page_reply
  dump-Sends live = elim (Option-cases (capture_dump lib.stats app.captr)) [
    | inl e ↦ absurd (ok.1 e)
    | inr (r, e) ↦ (record app { captr = r.1 }, rw (e, dump_handler, page_reply, Option.map) refl)
  ]

  -- Every page, over any ledger.
  page-Sends :
      (p : Page) (m : Method) (live : List Resource)
      → Sends (page_reply lib app m p ∷ []) live (page_handler lib p m app live)
  unfolding page_handler page_reply help_handler version_handler stats_handler config_handler
      dump_handler send_error send_body
  page-Sends status_page m live = status-Sends live
  page-Sends help_page m live = (app, refl)
  page-Sends version_page m live = (app, refl)
  page-Sends stats_page get_method live = (_, refl)
  page-Sends config_page get_method live = config-Sends live
  page-Sends dump_page get_method live = dump-Sends live
  page-Sends _ m live = (app, refl)

  found-Sends :
      (o : Option Page) (m : Method) (live : List Resource)
      → Sends (path_reply lib app m o ∷ []) live (find_and_handle lib o m app live)
  unfolding find_and_handle path_reply send_error
  found-Sends none m live = (app, refl)
  found-Sends (some p) m live = page-Sends p m live

  path-Sends :
      (m : Method) (o : Option Bytes)
      → Sends
          (decoded_reply lib app m o ∷ [])
          []
          (handle_path lib all_routes m o app (decoded_uri ∷ []))
  unfolding handle_path decoded_reply send_error
  path-Sends m none = (app, refl)
  path-Sends m (some p) =
      let (app', e) = found-Sends (find_route all_routes p) m (decoded_path ∷ decoded_uri ∷ []) in
      (app', >>=-some (find_and_handle lib (find_route all_routes p) m app) _ _ e)

  uri-Sends :
      (m : Method) (o : Option (Option Bytes))
      → Sends (uri_reply lib app m o ∷ []) [] (handle_uri lib all_routes m o app [])
  unfolding handle_uri uri_reply send_error
  uri-Sends m none = (app, refl)
  uri-Sends m (some path) = path-Sends m (lib.uridecode (path_or_root lib path))

-- Once `api_route_init` has returned 0, and where the configuration and the capture can be shown:
-- to a GET or a HEAD `api_handler` sends one reply, to any other request none, and it frees each
-- thing that it allocates once and nothing else. The reply to a GET has the code 400 where the URI
-- cannot be parsed, 404 where its path cannot be decoded or is no route, 500 for the status where
-- its template cannot be parsed, and otherwise the text of its page; a HEAD of a page with the
-- state gives 404.
pub api_handler-Sends :
    (ms : List Bool) (lib : Lib) (app : App) (m : Method) (uri : Bytes)
    → (api_route_init ms).0 ≡ true
    → IsReportable lib app
    → Sends (replies_for lib app m uri) [] (api_handler lib (api_route_init ms).1 m uri app [])
unfolding api_handler api_route_init replies_for
api_handler-Sends ms lib app m uri h ok = rw (api_route_init_lem ms h) (go m)
  where
    go :
        (m : Method)
        → Sends (replies_for lib app m uri) [] (api_handler lib all_routes m uri app [])
    go other_method = (app, refl)
    go get_method = uri-Sends lib app ok get_method (lib.uri_parse uri)
    go head_method = uri-Sends lib app ok head_method (lib.uri_parse uri)

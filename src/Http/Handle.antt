-- ===== src/Http/Handle.antt =====
-- apptpl/api_handler.c: `api_handler`, from the request to the handler of its page.
use capptpl.Base.{Bytes, List, Option, [], codes, none, some}
use capptpl.Base.Ledger.{acquire, pure, release, ◌>>=◌, ◌>>◌}
use capptpl.Http.{
  Handler, Lib, Method, Page, Route, config_handler, config_page, decoded_path, decoded_uri,
  dump_handler, dump_page, find_route, help_handler, help_page, other_method, send_error,
  stats_handler, stats_page, status_handler, status_page, tag, version_handler, version_page,
}

module _ (lib : Lib) where
  open lib use {uri_parse, uridecode}

  -- The call of the route's function.
  unfoldable pub page_handler : Page → Method → Handler lib
  unfolding status_handler help_handler version_handler stats_handler config_handler dump_handler
  page_handler status_page m = status_handler lib
  page_handler help_page m = help_handler lib
  page_handler version_page m = version_handler lib
  page_handler stats_page m = stats_handler lib m
  page_handler config_page m = config_handler lib m
  page_handler dump_page m = dump_handler lib m

  -- The call, or the label `err`.
  unfoldable pub find_and_handle : Option Page → Method → Handler lib
  unfolding page_handler send_error
  find_and_handle none m = send_error lib 404
  find_and_handle (some p) m = page_handler p m

  -- From the decoded path on.
  unfoldable pub handle_path : List Route → Method → Option Bytes → Handler lib
  unfolding find_route find_and_handle send_error
  handle_path routes m none app = send_error lib 404 app >>= λ r. release tag decoded_uri >> pure r
  handle_path routes m (some p) app =
      acquire decoded_path
      >> (find_and_handle (find_route routes p) m app >>= λ r.
          release tag decoded_uri >> release tag decoded_path >> pure r)

  -- The path, where there is one.
  abbrev pub path_or_root : Option Bytes → Bytes
  path_or_root none = codes "/"
  path_or_root (some p) = p

  -- From the parsed URI on. A wrong API key is only logged.
  unfoldable pub handle_uri : List Route → Method → Option (Option Bytes) → Handler lib
  unfolding handle_path send_error
  handle_uri routes m none app = send_error lib 400 app
  handle_uri routes m (some path) app = do
    acquire decoded_uri
    handle_path routes m (uridecode (path_or_root path)) app

  unfoldable pub api_handler : List Route → Method → Bytes → Handler lib
  unfolding handle_uri
  api_handler routes other_method uri app = pure (app, [])
  api_handler routes m uri app = handle_uri routes m (uri_parse uri) app

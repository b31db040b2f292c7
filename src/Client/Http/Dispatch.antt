-- ===== src/Client/Http/Dispatch.antt =====
-- What the second program answers to a request, and what it leaves allocated.
use mathlib.Core.Path.{subst}
use capptpl.Base.{
  Bool, Bytes, List, Option, Option-cases, [], false, inl, inr, none, refl, some, sym, true, ℕ, ◌∷◌,
  ◌≡◌, ◌≢◌,
}
use capptpl.Base.Ledger.{>>=-some, acquire, pure, release, ◌>>=◌, ◌>>◌}
use capptpl.Client.{ClientConfig}
use capptpl.Client.Http.{
  ClientHandler, ClientLib, client_api_handler, client_config_handler, client_page, client_path,
  client_route, client_route_init, client_routes, client_stats_handler, client_status_handler,
  client_uri, client_version_handler, or_slash, send_text,
}
use capptpl.Client.Report.{client_config2json}
use capptpl.Http.{
  Method, Page, Reply, Resource, config_page, decoded_path, decoded_uri, dump_page, error_reply,
  find_route, get_method, head_method, help_page, json_text, json_type, other_method, reply,
  stats_page, status_page, tag, version_page,
}
use capptpl.Http.Dispatch.{code_of}
use capptpl.Http.Routes.{add_routes_all}

-- The codes of the pages, and whether the page leaves the printed status behind.
pub client_page_code : ClientLib → Method → Page → ℕ × Bool
client_page_code lib m status_page = elim lib.status_text [
  | none ↦ (500, false)
  | some text ↦ (200, true)
]
client_page_code lib m version_page = (200, false)
client_page_code lib m stats_page = (200, false)
client_page_code lib get_method config_page = (200, false)
client_page_code lib m _ = (404, false)

pub client_found_code : ClientLib → Method → Option Page → ℕ × Bool
unfolding client_page_code
client_found_code lib m none = (404, false)
client_found_code lib m (some p) = client_page_code lib m p

pub client_path_code : ClientLib → Method → Option Bytes → ℕ × Bool
unfolding client_found_code find_route
client_path_code lib m none = (404, false)
client_path_code lib m (some p) = client_found_code lib m (find_route client_routes p)

pub client_uri_code : ClientLib → Method → Option (Option Bytes) → ℕ × Bool
unfolding client_path_code
client_uri_code lib m none = (400, false)
client_uri_code lib m (some path) = client_path_code lib m (lib.uridecode (or_slash path))

abbrev pub left_if : Bool → List Resource → List Resource
left_if false live = live
left_if true live = json_text ∷ live

-- What a handler does: it sends one reply with this code, and leaves the printed status or nothing.
abbrev pub Answers : ℕ × Bool → List Resource → Option (List Reply × List Resource) → Type 0
Answers (code, leaves) live o =
    (r : Reply) × (o ≡ some (r ∷ [], left_if leaves live)) × (code_of r ≡ code)

module _ (lib : ClientLib) (c : ClientConfig) (shown : client_config2json c ≢ none) where
  status-Answers :
      (live : List Resource)
      → Answers (client_page_code lib get_method status_page) live (client_status_handler lib live)
  unfolding client_status_handler client_page_code code_of
  status-Answers live = elim (Option-cases lib.status_text) [
    | inl e ↦
        let k : client_page_code lib get_method status_page ≡ (500, false) =
          rw (e, client_page_code) in
        subst (λ x. Answers x live (client_status_handler lib live)) (sym k)
          (error_reply 500, rw (e, client_status_handler), refl)
    | inr (text, e) ↦
        let k : client_page_code lib get_method status_page ≡ (200, true) =
          rw (e, client_page_code) in
        subst (λ x. Answers x live (client_status_handler lib live)) (sym k)
          (reply json_type text, rw (e, client_status_handler), refl)
  ]

  config-Answers :
      (live : List Resource)
      → Answers (200, false) live (client_config_handler lib get_method c live)
  unfolding client_config_handler code_of
  config-Answers live = elim (Option-cases (client_config2json c)) [
    | inl e ↦ absurd (shown e)
    | inr (text, e) ↦ (reply json_type text, rw (e, client_config_handler), refl)
  ]

  -- Every page, over any ledger.
  page-Answers :
      (p : Page) (m : Method) (live : List Resource)
      → Answers (client_page_code lib m p) live (client_page lib p m c live)
  unfolding client_page client_page_code code_of client_version_handler client_stats_handler
      send_text client_config_handler
  page-Answers status_page m live = status-Answers live
  page-Answers version_page m live = (_, refl, refl)
  page-Answers stats_page m live = (_, refl, refl)
  page-Answers config_page get_method live = config-Answers live
  page-Answers config_page head_method live = (_, refl, refl)
  page-Answers config_page other_method live = (_, refl, refl)
  page-Answers help_page m live = (_, refl, refl)
  page-Answers dump_page m live = (_, refl, refl)

  found-Answers :
      (o : Option Page) (m : Method) (live : List Resource)
      → Answers (client_found_code lib m o) live (client_route lib o m c live)
  unfolding client_route client_found_code code_of
  found-Answers none m live = (_, refl, refl)
  found-Answers (some p) m live = page-Answers p m live

  -- The decoded URI and its path are freed, whatever else the page has left.
  freed :
      (k : ℕ × Bool) (h : ClientHandler lib)
      → Answers k (decoded_path ∷ decoded_uri ∷ []) (h (decoded_path ∷ decoded_uri ∷ []))
      → Answers k [] (
          (acquire decoded_path
              >> (h >>= λ r. release tag decoded_uri >> release tag decoded_path >> pure r))
            (decoded_uri ∷ []))
  freed (code, true) h (r, e, k) = (r, >>=-some h _ _ e, k)
  freed (code, false) h (r, e, k) = (r, >>=-some h _ _ e, k)

  path-Answers :
      (m : Method) (o : Option Bytes)
      → Answers
          (client_path_code lib m o)
          []
          (client_path lib client_routes m c o (decoded_uri ∷ []))
  unfolding client_path client_path_code code_of
  path-Answers m none = (_, refl, refl)
  path-Answers m (some p) =
      freed (client_found_code lib m (find_route client_routes p))
        (client_route lib (find_route client_routes p) m c)
        (found-Answers (find_route client_routes p) m (decoded_path ∷ decoded_uri ∷ []))

  uri-Answers :
      (m : Method) (o : Option (Option Bytes))
      → Answers (client_uri_code lib m o) [] (client_uri lib client_routes m c o [])
  unfolding client_uri client_uri_code code_of
  uri-Answers m none = (_, refl, refl)
  uri-Answers m (some path) = path-Answers m (lib.uridecode (or_slash path))

-- What a request gets: nothing, or one reply.
abbrev pub Serves : ClientLib → Method → Bytes → Option (List Reply × List Resource) → Type 0
Serves lib other_method uri o = o ≡ some ([], [])
Serves lib m uri o = Answers (client_uri_code lib m (lib.uri_parse uri)) [] o

-- Once `api_route_init` of the second program has returned 0, and where the configuration can be
-- shown: to a GET or a HEAD it sends one reply and to any other request none; the code is 400 where
-- the URI cannot be parsed, 404 where its path cannot be decoded or is no route, or for a HEAD of
-- the configuration, 500 for the status where its template cannot be parsed, and 200 otherwise. It
-- frees all that it allocates but the printed text of a status that it has sent.
pub client_api_handler-Serves :
    (ms : List Bool) (lib : ClientLib) (c : ClientConfig) (m : Method) (uri : Bytes)
    → (client_route_init ms).0 ≡ true
    → client_config2json c ≢ none
    → Serves lib m uri (client_api_handler lib (client_route_init ms).1 m uri c [])
unfolding client_api_handler client_route_init
client_api_handler-Serves ms lib c m uri h shown = rw (add_routes_all ms client_routes [] h) (go m)
  where
    go : (m : Method) → Serves lib m uri (client_api_handler lib client_routes m uri c [])
    go other_method = refl
    go get_method = uri-Answers lib c shown get_method (lib.uri_parse uri)
    go head_method = uri-Answers lib c shown head_method (lib.uri_parse uri)

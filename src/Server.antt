-- ===== src/Server.antt =====
-- apptpl/magt.c: `ssl_init`, `magt_init` and `magt_close`. What libevent, OpenSSL and malloc
-- answer is an argument. An event that is added or deleted has to be there.
pub mod Release
pub mod Outcome
use capptpl.Base.{
  Bool, List, Option, false, if◌then◌else◌, length, none, some, true, ℕ, ◌&&◌, ◌++◌, ◌+◌, ◌==◌,
}
use capptpl.Base.Ledger.{M, acquire, pure, release, release_if, touch, ◌>>=◌, ◌>>◌}
use capptpl.Base.Ledger.Numbered.{copies_of, release_all}
use capptpl.Http.{api_route_init}

pub data Resource : Type 0 where
  event_base sigint_event sigterm_event timer_event httpd ssl_context : Resource
  route : ℕ → Resource

abbrev pub tag : Resource → ℕ
tag event_base = 0
tag sigint_event = 1
tag sigterm_event = 2
tag timer_event = 3
tag httpd = 4
tag ssl_context = 5
tag (route n) = 6 + n

-- What the calls of `ssl_init` answer.
pub record SslAnswers : Type 0 where
  pub rand_ok : Bool
  pub context_ok : Bool
  pub chain_ok : Bool
  pub key_ok : Bool
  pub check_ok : Bool

-- What the calls of `magt_init` answer; `routes` is for the memory of each route.
pub record Answers : Type 0 where
  pub base_ok : Bool
  pub sigint_ok : Bool
  pub sigterm_ok : Bool
  pub timer_ok : Bool
  pub httpd_ok : Bool
  pub ssl : SslAnswers
  pub bind_ok : Bool
  pub routes : List Bool

-- The variables of the file, once the server is there: whether there is an SSL context, and the
-- number of routes in the table of apptpl/api_handler.c.
pub record Server : Type 0 where
  pub sslctx : Bool
  pub routes : ℕ

-- What the label `err` of `magt_init` finds, beside the event base.
pub record Progress : Type 0 where
  pub sigint : Bool
  pub sigterm : Bool
  pub timer : Bool
  pub httpd_made : Bool
  pub sslctx : Bool

abbrev pub no_progress : Progress
no_progress = record {
  sigint = false;
  sigterm = false;
  timer = false;
  httpd_made = false;
  sslctx = false;
}

-- From the loading of the certificates on; whether there is a context.
unfoldable pub load_certificates : SslAnswers → M Resource Bool
load_certificates s =
    if s.chain_ok && s.key_ok && s.check_ok
    then pure true
    else (release tag ssl_context >> pure false)

unfoldable pub ssl_init : SslAnswers → M Resource Bool
unfolding load_certificates
ssl_init s =
    if s.rand_ok
    then if s.context_ok then (acquire ssl_context >> load_certificates s) else pure false
    else pure false

-- `if (ev) { evsignal_del(ev); event_free(ev); }`
unfoldable pub free_signal : Bool → Resource → M Resource (Unit {0})
free_signal b ev = if b then (touch tag ev >> release tag ev) else pure tt

-- The label `err` of `magt_init`; the routes stay in their table.
unfoldable pub init_failed : Progress → M Resource (Option Server)
unfolding free_signal
init_failed p = do
  free_signal p.sigint sigint_event
  free_signal p.sigterm sigterm_event
  release_if tag p.timer timer_event
  release_if tag p.httpd_made httpd
  release tag event_base
  release_if tag p.sslctx ssl_context
  pure none

-- The routes that `api_route_init` has put into the table, on top of what there is.
unfoldable pub hold_routes : ℕ → M Resource (Unit {0})
hold_routes n live = some (tt, copies_of route 0 n ++ live)

-- From the call of `evhttp_bind_socket` on.
unfoldable pub add_handler : Answers → Progress → M Resource (Option Server)
unfolding init_failed hold_routes api_route_init
add_handler a p =
    if a.bind_ok
    then (let (ok, routes) = api_route_init a.routes in
        hold_routes (length routes)
        >> (if ok
            then pure (some (record { sslctx = p.sslctx; routes = length routes }))
            else init_failed p))
    else init_failed p

-- From the test of `enable_ssl` on.
unfoldable pub add_ssl : ℕ → Answers → Progress → M Resource (Option Server)
unfolding ssl_init add_handler init_failed
add_ssl enable_ssl a p =
    if enable_ssl == 0
    then add_handler a p
    else (ssl_init a.ssl >>= λ b.
        if b then add_handler a (record p { sslctx = true }) else init_failed p)

-- From the timer on.
unfoldable pub add_httpd : ℕ → Answers → Progress → M Resource (Option Server)
unfolding add_ssl init_failed
add_httpd enable_ssl a p =
    if a.timer_ok
    then (acquire timer_event
        >> (if a.httpd_ok
            then (acquire httpd
                >> add_ssl enable_ssl a (record p { timer = true; httpd_made = true }))
            else init_failed (record p { timer = true })))
    else init_failed p

-- From the signals on.
unfoldable pub add_signals : ℕ → Answers → M Resource (Option Server)
unfolding add_httpd init_failed
add_signals enable_ssl a =
    if a.sigint_ok
    then (acquire sigint_event
        >> (if a.sigterm_ok
            then (acquire sigterm_event
                >> add_httpd enable_ssl a (record no_progress { sigint = true; sigterm = true }))
            else init_failed (record no_progress { sigint = true })))
    else init_failed no_progress

-- `none` is the result -1.
unfoldable pub magt_init : ℕ → Answers → M Resource (Option Server)
unfolding add_signals
magt_init enable_ssl a =
    if a.base_ok then (acquire event_base >> add_signals enable_ssl a) else pure none

-- `api_route_free` frees the routes in the table's order.
unfoldable pub magt_close : Server → M Resource (Unit {0})
magt_close s = do
  touch tag sigint_event
  touch tag sigterm_event
  release tag sigint_event
  release tag sigterm_event
  release tag timer_event
  release tag httpd
  release tag event_base
  release_if tag s.sslctx ssl_context
  release_all route tag s.routes 0

-- ===== src/Server/Outcome.antt =====
-- How `magt_init` ends, and that `magt_close` undoes it.
use mathlib.Core.Path.{subst}
use capptpl.Base.{
  Bool, Bool-cases, List, Option, [], ap, false, if-both, if-cases, inl, inr, length, none, not,
  refl, some, sym, true, ℕ, ◌&&◌, ◌++◌, ◌==◌, ◌∷◌, ◌≡◌, ◌⊎◌,
}
use capptpl.Base.Ledger.{>>=-some, M}
use capptpl.Http.{all_routes, api_route_init}
use capptpl.Http.Routes.{api_route_init_lem}
use capptpl.Server.{
  Answers, Progress, Resource, Server, SslAnswers, add_handler, add_httpd, add_signals, add_ssl,
  event_base, free_signal, hold_routes, httpd, init_failed, load_certificates, magt_close,
  magt_init, no_progress, sigint_event, sigterm_event, ssl_context, ssl_init, timer_event,
}
use capptpl.Server.Release.{all_made, below, close_lem, init_failed_lem, owned, routes_of}

-- The two results of `ssl_init`.
abbrev Gives : List Resource → Option (Bool × List Resource) → Type 0
Gives l o = (o ≡ some (true, ssl_context ∷ l)) ⊎ (o ≡ some (false, l))

module _ (a : Answers) where
  -- The result of `magt_init` and what is held then.
  abbrev pub Ends : ℕ → Option (Option Server × List Resource) → Type 0
  Ends enable_ssl o =
      ((s : Server) × (o ≡ some (some s, owned s))
        × (s.sslctx ≡ not (enable_ssl == 0))
        × (s.routes ≡ length all_routes)
        × (magt_close s (owned s) ≡ some (tt, [])))
      ⊎ ((n : ℕ) × (o ≡ some (none, routes_of n))
          × ((n ≡ 0) ⊎ ((api_route_init a.routes).0 ≡ false)))

  handler-Ends :
      (e : ℕ) (b : Bool) → b ≡ not (e == 0) → Ends e (add_handler a (all_made b) (below b))
  unfolding add_handler hold_routes owned
  handler-Ends e b h =
      let (ok, routes) = api_route_init a.routes in
      if-cases (λ (m : M Resource (Option Server)). Ends e (m (below b))) a.bind_ok _ _
        (λ _.
          if-cases
            (λ (m : M Resource (Option Server)). Ends e (m (routes_of (length routes) ++ below b)))
            ok _ _
            (λ k. inl (
              record { sslctx = b; routes = length routes },
              refl,
              h,
              ap length (api_route_init_lem a.routes k),
              close_lem (length routes) b,
            ))
            (λ k. inr (length routes, init_failed_lem (length routes) b, inr k)))
        (λ _. inr (0, init_failed_lem 0 b, inl refl))

  abbrev signals : List Resource
  signals = sigterm_event ∷ sigint_event ∷ event_base ∷ []

  abbrev signals_made : Progress
  signals_made = record no_progress { sigint = true; sigterm = true }

  ssl_cases : (s : SslAnswers) (l : List Resource) → Gives l (ssl_init s l)
  unfolding ssl_init load_certificates
  ssl_cases s l =
      if-cases (λ (m : M Resource Bool). Gives l (m l)) s.rand_ok _ _
        (λ _.
          if-cases (λ (m : M Resource Bool). Gives l (m l)) s.context_ok _ _
            (λ _.
              if-both (λ (m : M Resource Bool). Gives l (m (ssl_context ∷ l)))
                (s.chain_ok && s.key_ok && s.check_ok) (inl refl) (inr refl))
            (λ _. inr refl))
        (λ _. inr refl)

  abbrev httpd_made_too : Progress
  httpd_made_too = record signals_made { timer = true; httpd_made = true }

  add_ssl_off :
      (e : ℕ) (l : List Resource)
      → (e == 0) ≡ true
      → add_ssl e a httpd_made_too l ≡ add_handler a (all_made false) l
  unfolding add_ssl
  add_ssl_off e l z = rw (z, add_ssl)

  add_ssl_on :
      (e : ℕ) (l : List Resource)
      → (e == 0) ≡ false
      → ssl_init a.ssl l ≡ some (true, ssl_context ∷ l)
      → add_ssl e a httpd_made_too l ≡ add_handler a (all_made true) (ssl_context ∷ l)
  unfolding add_ssl
  add_ssl_on e l z k = rw (z, add_ssl) (>>=-some (ssl_init a.ssl) _ l k)

  add_ssl_failed :
      (e : ℕ) (l : List Resource)
      → (e == 0) ≡ false
      → ssl_init a.ssl l ≡ some (false, l)
      → add_ssl e a httpd_made_too l ≡ init_failed httpd_made_too l
  unfolding add_ssl
  add_ssl_failed e l z k = rw (z, add_ssl) (>>=-some (ssl_init a.ssl) _ l k)

  ssl-Ends :
      (e : ℕ)
      → Ends e (
          add_ssl e a
            (record signals_made { timer = true; httpd_made = true })
            (httpd ∷ timer_event ∷ signals))
  unfolding init_failed free_signal
  ssl-Ends e = elim (Bool-cases (e == 0)) [
    | inl z ↦ subst (Ends e) (sym (add_ssl_off e _ z)) (handler-Ends e false (rw z))
    | inr z ↦ elim (ssl_cases a.ssl (httpd ∷ timer_event ∷ signals)) [
      | inl k ↦ subst (Ends e) (sym (add_ssl_on e _ z k)) (handler-Ends e true (rw z))
      | inr k ↦ subst (Ends e) (sym (add_ssl_failed e _ z k)) (inr (0, refl, inl refl))
    ]
  ]

  httpd-Ends : (e : ℕ) → Ends e (add_httpd e a signals_made signals)
  unfolding add_httpd init_failed free_signal
  httpd-Ends e =
      if-cases (λ (m : M Resource (Option Server)). Ends e (m signals)) a.timer_ok _ _
        (λ _.
          if-cases (λ (m : M Resource (Option Server)). Ends e (m (timer_event ∷ signals)))
            a.httpd_ok _ _ (λ _. ssl-Ends e) (λ _. inr (0, refl, inl refl)))
        (λ _. inr (0, refl, inl refl))

  -- `magt_init` frees nothing that it does not hold. It makes a server with an SSL context exactly
  -- if the configuration asks for one and with every route, which then holds what `magt_close`
  -- frees, each once; or it fails and leaves nothing, unless the memory for a route was missing,
  -- when the routes that have been added stay.
  pub magt_init-Ends : (enable_ssl : ℕ) → Ends enable_ssl (magt_init enable_ssl a [])
  unfolding magt_init add_signals init_failed free_signal
  magt_init-Ends e =
      if-cases (λ (m : M Resource (Option Server)). Ends e (m [])) a.base_ok _ _
        (λ _.
          if-cases (λ (m : M Resource (Option Server)). Ends e (m (event_base ∷ []))) a.sigint_ok _
            _
            (λ _.
              if-cases
                (λ (m : M Resource (Option Server)). Ends e (m (sigint_event ∷ event_base ∷ [])))
                a.sigterm_ok _ _ (λ _. httpd-Ends e) (λ _. inr (0, refl, inl refl)))
            (λ _. inr (0, refl, inl refl)))
        (λ _. inr (0, refl, inl refl))

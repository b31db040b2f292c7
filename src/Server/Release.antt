-- ===== src/Server/Release.antt =====
-- The label `err` of `magt_init` and `magt_close`, with any number of routes in the table.
use capptpl.Base.{
  Bool, List, [], ap, append-nil, arith, false, if◌then◌else◌, none, refl, some, true, ℕ, ◌++◌, ◌<◌,
  ◌==◌, ◌∙◌, ◌∷◌, ◌≡◌,
}
use capptpl.Base.Ledger.{>>=-some, is_live, release, release_if, remove, touch}
use capptpl.Base.Ledger.Numbered.{copies_of, release-copies_of, release_all_lem, touch-copies_of}
use capptpl.Server.{
  Progress, Resource, Server, event_base, free_signal, httpd, init_failed, magt_close, route,
  sigint_event, sigterm_event, ssl_context, tag, timer_event,
}

-- What lies below the routes, with or without an SSL context on top.
abbrev pub under : Bool → List Resource → List Resource
under b l = (if b then ssl_context ∷ [] else []) ++ l

abbrev pub all_below : List Resource
all_below = httpd ∷ timer_event ∷ sigterm_event ∷ sigint_event ∷ event_base ∷ []

-- What the label `err` finds below the routes.
abbrev pub below : Bool → List Resource
below b = under b all_below

abbrev pub routes_of : ℕ → List Resource
routes_of n = copies_of route 0 n

-- What a server holds.
unfoldable pub owned : Server → List Resource
owned s = routes_of s.routes ++ below s.sslctx

abbrev pub all_made : Bool → Progress
all_made b = record { sigint = true; sigterm = true; timer = true; httpd_made = true; sslctx = b }

under-remove :
    (b : Bool) (r : Resource) (l l' : List Resource)
    → tag r < 5
    → remove tag r l ≡ some l'
    → remove tag r (under b l) ≡ some (under b l')
under-remove true r l l' h e = let other : (tag r == 5) ≡ false = ground (arith, h) in rw (other, e)
under-remove false r l l' h e = e

under-is_live :
    (b : Bool) (r : Resource) (l : List Resource)
    → is_live tag r l ≡ true
    → is_live tag r (under b l) ≡ true
under-is_live true r l e = ground (arith, e)
under-is_live false r l e = e

ssl_freed :
    (n : ℕ) (b : Bool)
    → release_if tag b ssl_context (routes_of n ++ under b []) ≡ some (tt, routes_of n ++ [])
ssl_freed n true =
    release-copies_of route tag 6 (λ k. refl) ssl_context 0 n (ssl_context ∷ []) [] (omega arith)
      refl
ssl_freed n false = refl

module _ (n : ℕ) (b : Bool) where
  -- The ledger with `l` below the routes and the SSL context.
  abbrev with_routes : List Resource → List Resource
  with_routes l = routes_of n ++ under b l

  freed :
      (r : Resource) (l l' : List Resource)
      → tag r < 5
      → remove tag r l ≡ some l'
      → release tag r (with_routes l) ≡ some (tt, with_routes l')
  freed r l l' h e =
      release-copies_of route tag 6 (λ k. refl) r 0 n (under b l) (under b l') (omega arith)
        (under-remove b r l l' h e)

  used :
      (r : Resource) (l : List Resource)
      → is_live tag r l ≡ true
      → touch tag r (with_routes l) ≡ some (tt, with_routes l)
  used r l e = touch-copies_of route tag 6 (λ k. refl) r 0 n (under b l) (under-is_live b r l e)

  signal_freed :
      (ev : Resource) (l l' : List Resource)
      → tag ev < 5
      → is_live tag ev l ≡ true
      → remove tag ev l ≡ some l'
      → free_signal true ev (with_routes l) ≡ some (tt, with_routes l')
  unfolding free_signal
  signal_freed ev l l' h e r =
      >>=-some (touch tag ev) _ (with_routes l) (used ev l e) ∙ freed ev l l' h r

  pub init_failed_lem : init_failed (all_made b) (with_routes all_below) ≡ some (none, routes_of n)
  unfolding init_failed
  init_failed_lem =
      >>=-some (free_signal true sigint_event) _ (with_routes all_below)
        (signal_freed sigint_event _ _ (omega arith) refl refl)
      ∙ >>=-some (free_signal true sigterm_event) _
          (with_routes (httpd ∷ timer_event ∷ sigterm_event ∷ event_base ∷ []))
          (signal_freed sigterm_event _ _ (omega arith) refl refl)
      ∙ >>=-some (release tag timer_event) _ (with_routes (httpd ∷ timer_event ∷ event_base ∷ []))
          (freed timer_event _ _ (omega arith) refl)
      ∙ >>=-some (release tag httpd) _ (with_routes (httpd ∷ event_base ∷ []))
          (freed httpd _ _ (omega arith) refl)
      ∙ >>=-some (release tag event_base) _ (with_routes (event_base ∷ []))
          (freed event_base _ _ (omega arith) refl)
      ∙ >>=-some (release_if tag b ssl_context) _ (with_routes []) (ssl_freed n b)
      ∙ ap (λ l. some (none, l)) (append-nil (routes_of n))

  pub close_lem :
      magt_close (record { sslctx = b; routes = n }) (with_routes all_below) ≡ some (tt, [])
  unfolding magt_close
  close_lem =
      >>=-some (touch tag sigint_event) _ (with_routes all_below) (used sigint_event _ refl)
      ∙ >>=-some (touch tag sigterm_event) _ (with_routes all_below) (used sigterm_event _ refl)
      ∙ >>=-some (release tag sigint_event) _ (with_routes all_below)
          (freed sigint_event _ _ (omega arith) refl)
      ∙ >>=-some (release tag sigterm_event) _
          (with_routes (httpd ∷ timer_event ∷ sigterm_event ∷ event_base ∷ []))
          (freed sigterm_event _ _ (omega arith) refl)
      ∙ >>=-some (release tag timer_event) _ (with_routes (httpd ∷ timer_event ∷ event_base ∷ []))
          (freed timer_event _ _ (omega arith) refl)
      ∙ >>=-some (release tag httpd) _ (with_routes (httpd ∷ event_base ∷ []))
          (freed httpd _ _ (omega arith) refl)
      ∙ >>=-some (release tag event_base) _ (with_routes (event_base ∷ []))
          (freed event_base _ _ (omega arith) refl)
      ∙ >>=-some (release_if tag b ssl_context) _ (with_routes []) (ssl_freed n b)
      ∙ release_all_lem route tag 6 (λ k. refl) n 0 []

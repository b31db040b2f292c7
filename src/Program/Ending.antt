-- ===== src/Program/Ending.antt =====
-- How `main` ends, and what is left then.
use capptpl.Capture.{Resource as CaptureResource}
use capptpl.Program.{Answers as MainAnswers, Held as MainHeld, nothing_held as none_held}
use capptpl.Server.Release.{owned as server_owned}
use capptpl.Parsers.{Held as ParsersHeld, nothing_held as no_policies_held}
use capptpl.Base.{Bool, List, Option, [], false, length, none, some, true, ℕ, ◌≡◌, ◌⊎◌}
use capptpl.Capture.{Capture, capture_open}
use capptpl.Config.{Config}
use capptpl.Http.{api_route_init}
use capptpl.Inputer.{Inputer}
use capptpl.Inputer.Open.{opens}
use capptpl.Parsers.{Policies, parser_create}
use capptpl.Parsers.Outcome.{copies_left}
use capptpl.Program.{capture_settings, zeroed_capture, zeroed_inputer}
use capptpl.Program.Closing.{left_over, socket_left}
use capptpl.Regex.Policy.{Cre2}
use capptpl.Server.{Server, magt_init}
use capptpl.Server.Release.{routes_of}

module _ (lib : Cre2) where
  -- What the calls of `main` give, each on what it needs.
  abbrev pub Serves : Config → MainAnswers → Type 0
  Serves c a = (s : Server) × (magt_init c.enable_ssl a.server [] ≡ some (some s, server_owned s))

  abbrev pub Parses : Bool → MainAnswers → Type 0
  Parses ok a =
      (p : Policies lib) × (h : ParsersHeld) × (parser_create lib a.words a.regexes no_policies_held
        ≡ some ((ok, p), h))

  abbrev pub Captures : Bool → Config → MainAnswers → Type 0
  Captures ok c a =
      (q : Capture) × (l : List CaptureResource) × (capture_open (capture_settings c) a.capture
          zeroed_capture []
        ≡ some ((ok, q), l))

  -- The results of `main`: 0 with nothing held, or 1 with what the error path leaves, each with the
  -- calls that have succeeded and the one that has failed.
  pub data Ending (c : Config) (a : MainAnswers) (o : Option (ℕ × MainHeld)) : Type 0 where
    closed :
        Serves c a
        → opens c.zmq_port a.inputer ≡ true
        → Parses true a
        → Captures true c a
        → o ≡ some (0, none_held)
        → Ending c a o
    no_server :
        (n : ℕ)
        → (n ≡ 0) ⊎ ((api_route_init a.server.routes).0 ≡ false)
        → magt_init c.enable_ssl a.server [] ≡ some (none, routes_of n)
        → o ≡ some (1, record none_held { server = routes_of n })
        → Ending c a o
    no_inputer :
        Serves c a → opens c.zmq_port a.inputer ≡ false → o ≡ some (1, none_held) → Ending c a o
    no_policies :
        (n : ℕ)
        → Serves c a
        → opens c.zmq_port a.inputer ≡ true
        → Parses false a
        → (n ≡ 0)
          ⊎ ((rex : lib.RegexSet) × (lib.set_compile rex ≡ false) × (length (lib.patterns rex) ≡ n))
        → o ≡ some (1, left_over socket_left (copies_left n))
        → Ending c a o
    no_capture :
        Serves c a
        → opens c.zmq_port a.inputer ≡ true
        → Parses true a
        → Captures false c a
        → o ≡ some (1, left_over socket_left no_policies_held)
        → Ending c a o

  module _ (c : Config) (a : MainAnswers) where
    abbrev opened_inputer : Inputer
    opened_inputer = record zeroed_inputer { port = c.zmq_port; puller = true }

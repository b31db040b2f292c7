-- ===== src/Tests/Inputer.antt =====
-- The inputer's socket at concrete answers of zmq.
use capptpl.Base.{[], arith, false, if◌then◌else◌, refl, some, true, ◌∷◌, ◌≡◌}
use capptpl.Inputer.{Answers, Inputer, inputer_open, loop_end, puller_socket, zmq_context}
use capptpl.Inputer.Open.{inputer_open_ends, opens}

abbrev binds : Answers
binds = record { context_ok = true; socket_ok = true; bind = λ a. true }

abbrev closed : Inputer
closed = record { shutdown = false; port = 0; puller = false; count = 7 }

opened_inputer :
    (inputer_open 8900 binds closed [] ≡ (
      if opens 8900 binds
      then some (
        (true, record closed { port = 8900; puller = true; count = 0 }),
        puller_socket ∷ zmq_context ∷ [],
      )
      else some ((false, closed), [])))
    × (loop_end (puller_socket ∷ zmq_context ∷ []) ≡ some (tt, []))
opened_inputer = inputer_open_ends 8900 binds closed refl (omega arith)

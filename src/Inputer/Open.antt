-- ===== src/Inputer/Open.antt =====
-- The address that `inputer_open` binds, and what it holds.
use capptpl.Base.{
  Bool, Bytes, [], ap, arith, codes, false, if◌then◌else◌, length-append, refl, some, take-all,
  true, ℕ, ◌&&◌, ◌++◌, ◌<◌, ◌^◌, ◌∙◌, ◌∷◌, ◌≡◌,
}
use capptpl.Base.Chars.{decimal}
use capptpl.Base.Chars.Decimal.{decimal-length}
use capptpl.Inputer.{
  Answers, Inputer, bind_address, inputer_open, loop_end, open_failed, puller_socket, zmq_context,
}

-- The address of a port, with no bound on its length.
pub address : ℕ → Bytes
address port = codes "tcp://*:" ++ decimal port

-- The address of every 16-bit port fits the buffer.
bind_address-address : (port : ℕ) → port < 2 ^ 16 → bind_address port ≡ address port
unfolding bind_address address
bind_address-address port h = take-all 14 (codes "tcp://*:" ++ decimal port) (
    omega (
      arith,
      length-append {0} (codes "tcp://*:") (decimal port),
      decimal-length port 4 (omega arith),
    ))

pub opens : ℕ → Answers → Bool
opens port a = a.context_ok && a.socket_ok && a.bind (address port)

open_result :
    (port : ℕ) (a : Answers) (i : Inputer)
    → i.puller ≡ false
    → inputer_open port a i [] ≡ (
        if a.context_ok && a.socket_ok && a.bind (bind_address port)
        then some (
          (true, record i { port = port; puller = true; count = 0 }),
          puller_socket ∷ zmq_context ∷ [],
        )
        else some ((false, i), []))
unfolding inputer_open open_failed
open_result port a i h = ground arith

-- For an inputer that is not open and a 16-bit port: if zmq gives a context and a socket and
-- binds the whole address `tcp://*:PORT`, the inputer is open, holds both, and they are what the
-- end of its loop frees; otherwise the inputer is as it was and nothing is held.
pub inputer_open_ends :
    (port : ℕ) (a : Answers) (i : Inputer)
    → i.puller ≡ false
    → port < 2 ^ 16
    → (inputer_open port a i [] ≡ (
        if opens port a
        then some (
          (true, record i { port = port; puller = true; count = 0 }),
          puller_socket ∷ zmq_context ∷ [],
        )
        else some ((false, i), [])))
      × (loop_end (puller_socket ∷ zmq_context ∷ []) ≡ some (tt, []))
unfolding opens loop_end
inputer_open_ends port a i h l = (
  open_result port a i h
      ∙ ap
          (λ t.
            if a.context_ok && a.socket_ok && a.bind t
            then some (
              (true, record i { port = port; puller = true; count = 0 }),
              puller_socket ∷ zmq_context ∷ [],
            )
            else some ((false, i), []))
          (bind_address-address port l),
  refl,
)

-- ===== src/Inputer.antt =====
-- apptpl/inputer.c: `inputer_open` and `inputer_stop`, and how `inputer_loop` closes what was
-- opened. The loop itself is in Messages.
pub mod Open
use capptpl.Base.{Bool, Bytes, codes, false, if◌then◌else◌, some, take, true, ℕ, ◌++◌, ◌-◌, ◌∷◌}
use capptpl.Base.Chars.{decimal}
use capptpl.Base.Ledger.{M, pure, release, release_if, ◌>>◌}

pub data Resource : Type 0 where
  zmq_context puller_socket : Resource

abbrev pub tag : Resource → ℕ
tag zmq_context = 0
tag puller_socket = 1

-- `struct inputer`, less its channel; `puller` says that the pointers are not NULL.
pub record Inputer : Type 0 where
  pub shutdown : Bool
  pub port : ℕ
  pub puller : Bool
  pub count : ℕ

pub record Answers : Type 0 where
  pub context_ok : Bool
  pub socket_ok : Bool
  pub bind : Bytes → Bool

-- `snprintf(addr, sizeof(addr)-1, "tcp://*:%d", port)` with `char addr[16]`.
unfoldable pub bind_address : ℕ → Bytes
bind_address port = take (16 - 1 - 1) (codes "tcp://*:" ++ decimal port)

-- The label `err`.
unfoldable pub open_failed : Bool → Inputer → M Resource (Bool × Inputer)
open_failed has_puller i = do
  release_if tag has_puller puller_socket
  release tag zmq_context
  pure (false, i)

-- Whether it returns 0, and the inputer.
unfoldable pub inputer_open : ℕ → Answers → Inputer → M Resource (Bool × Inputer)
unfolding open_failed
inputer_open port a i live =
    if i.puller
    then some ((false, i), live)
    else if a.context_ok
    then if a.socket_ok
      then if a.bind (bind_address port)
        then some (
          (true, record i { port = port; puller = true; count = 0 }),
          puller_socket ∷ zmq_context ∷ live,
        )
        else open_failed true i (puller_socket ∷ zmq_context ∷ live)
      else open_failed false i (zmq_context ∷ live)
    else some ((false, i), live)

-- The calls behind the loop of `inputer_loop`; the pointers stay as they are.
unfoldable pub loop_end : M Resource (Unit {0})
loop_end = release tag puller_socket >> release tag zmq_context

unfoldable pub inputer_stop : Inputer → Inputer
inputer_stop i = record i { shutdown = true }

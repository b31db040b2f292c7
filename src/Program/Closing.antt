-- ===== src/Program/Closing.antt =====
-- What the two ends of `main` close, the error path and the one after the loop.
use capptpl.Program.{Held as MainHeld, nothing_held as none_held}
use capptpl.Capture.{Resource as CaptureResource}
use capptpl.Inputer.{Resource as InputerResource}
use capptpl.Server.Release.{owned as server_owned}
use capptpl.Parsers.{Held as ParsersHeld, nothing_held as no_policies_held}
use capptpl.Base.{Bool, List, [], false, if◌then◌else◌, refl, some, true, ℕ, ◌++◌, ◌∙◌, ◌∷◌, ◌≡◌}
use capptpl.Base.State.{pure, zoom, zoom-bind, ◌>>◌}
use capptpl.Capture.{Capture, bpf_code, bpf_memory, capture_close, capture_loop_stop, pcap_handle}
use capptpl.Inputer.{loop_end, puller_socket, zmq_context}
use capptpl.Parsers.{Policies, parser_destroy}
use capptpl.Program.{
  Channel, chan_msg, chan_pkt, free_channels, open_failed, parsers_part, pcap_part, run_and_close,
  server_part, zeroed_capture, zmq_part,
}
use capptpl.Regex.Policy.{Cre2}
use capptpl.Server.{Server, magt_close}

abbrev pub both_channels : List Channel
both_channels = chan_pkt ∷ chan_msg ∷ []

abbrev pub socket_left : List InputerResource
socket_left = puller_socket ∷ zmq_context ∷ []

-- What is held after `magt_init` and `cchan_new`, and what the later calls add.
abbrev pub held_with : Server → List InputerResource → ParsersHeld → List CaptureResource → MainHeld
held_with s z p l = record {
  server = server_owned s;
  channels = both_channels;
  zmq = z;
  parsers = p;
  pcap = l;
}

-- What is left where the server and the channels are closed.
abbrev pub left_over : List InputerResource → ParsersHeld → MainHeld
left_over z p = record { server = []; channels = []; zmq = z; parsers = p; pcap = [] }

capture_closes :
    (c : Capture) (b : Bool)
    → (c' : Capture) × (capture_close
          (capture_loop_stop (record c { handle = true; bpf = b }))
          ((if b then bpf_code ∷ bpf_memory ∷ [] else []) ++ pcap_handle ∷ [])
        ≡ some (c', []))
unfolding capture_close capture_loop_stop
capture_closes c true = (_, refl)
capture_closes c false = (_, refl)

zeroed_closes : capture_close zeroed_capture [] ≡ some (zeroed_capture, [])
unfolding capture_close
zeroed_closes = refl

module _ (lib : Cre2) where
  channels_freed :
      (z : List InputerResource) (p : ParsersHeld) (code : ℕ)
      → (free_channels >> pure code) (record (left_over z p) { channels = both_channels })
        ≡ some (code, left_over z p)
  unfolding free_channels zoom
  channels_freed z p code = refl

  pub failed_lem :
      (s : Server) (z : List InputerResource) (p q : Policies lib) (h h' : ParsersHeld)
      → magt_close s (server_owned s) ≡ some (tt, [])
      → parser_destroy lib p h ≡ some (q, h')
      → open_failed lib s p zeroed_capture (held_with s z h []) ≡ some (1, left_over z h')
  unfolding open_failed
  failed_lem s z p q h h' d e =
      zoom-bind server_part (magt_close s) _ (held_with s z h []) d
      ∙ zoom-bind pcap_part (capture_close zeroed_capture) _
          (record (left_over z h) { channels = both_channels }) zeroed_closes
      ∙ zoom-bind parsers_part (parser_destroy lib p) _
          (record (left_over z h) { channels = both_channels }) e
      ∙ channels_freed z h' 1

  loop_ends : loop_end socket_left ≡ some (tt, [])
  unfolding loop_end
  loop_ends = refl

  pub run_lem :
      (s : Server) (p q : Policies lib) (c : Capture) (b : Bool) (h : ParsersHeld)
      → magt_close s (server_owned s) ≡ some (tt, [])
      → parser_destroy lib p h ≡ some (q, no_policies_held)
      → run_and_close lib s p
          (record c { handle = true; bpf = b })
          (held_with s socket_left h
            ((if b then bpf_code ∷ bpf_memory ∷ [] else []) ++ pcap_handle ∷ []))
        ≡ some (0, none_held)
  unfolding run_and_close
  run_lem s p q c b h d e =
      let l = (if b then bpf_code ∷ bpf_memory ∷ [] else []) ++ pcap_handle ∷ [] in
      let opened = record c { handle = true; bpf = b } in
      let still = record (left_over [] h) { channels = both_channels } in
      zoom-bind server_part (magt_close s) _ (held_with s socket_left h l) d
      ∙ zoom-bind zmq_part loop_end _ (record still { zmq = socket_left; pcap = l }) loop_ends
      ∙ zoom-bind pcap_part (capture_close (capture_loop_stop opened)) _ (record still { pcap = l })
          (capture_closes c b).1
      ∙ zoom-bind parsers_part (parser_destroy lib p) _ still e
      ∙ channels_freed [] no_policies_held 0

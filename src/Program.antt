-- ===== src/Program.antt =====
-- apptpl/main.c from the call of `magt_init` on: the order in which `main` opens and closes the
-- components, and its error path. Each component has its own ledger. The threads run between:
-- what is held then does not change, but that `inputer_loop` closes what `inputer_open` opened.
pub mod Start
pub mod Closing
pub mod Ending
use capptpl.Words.{Answers as WordAnswers}
use capptpl.Regex.Policy.{Answers as RegexAnswers}
use capptpl.Capture.{
  Resource as CaptureResource, Answers as CaptureAnswers, Settings as CaptureSettings,
}
use capptpl.Inputer.{Resource as InputerResource, Answers as InputerAnswers}
use capptpl.Server.{Resource as ServerResource, Answers as ServerAnswers}
use capptpl.Parsers.{Held as ParsersHeld, nothing_held as no_policies_held}
use capptpl.Base.{List, Option, [], c_str, false, if◌then◌else◌, none, some, ℕ}
use capptpl.Base.Int.{pos}
use capptpl.Base.Ledger.{acquire, release}
use capptpl.Base.State.{Part, State, pure, zoom, ◌>>=◌, ◌>>◌}
use capptpl.Capture.{Capture, capture_close, capture_loop_stop, capture_open}
use capptpl.Config.{Config}
use capptpl.Inputer.{Inputer, inputer_open, loop_end}
use capptpl.Parsers.{Policies, parser_create, parser_destroy, zeroed_policies}
use capptpl.Regex.Policy.{Cre2}
use capptpl.Server.{Server, magt_close, magt_init}

pub data Channel : Type 0 where
  chan_msg chan_pkt : Channel

abbrev pub tag : Channel → ℕ
tag chan_msg = 0
tag chan_pkt = 1

pub record Held : Type 0 where
  pub server : List ServerResource
  pub channels : List Channel
  pub zmq : List InputerResource
  pub parsers : ParsersHeld
  pub pcap : List CaptureResource

abbrev pub nothing_held : Held
nothing_held = record {
  server = [];
  channels = [];
  zmq = [];
  parsers = no_policies_held;
  pcap = [];
}

abbrev pub server_part : Part Held (List ServerResource)
server_part = record { get = λ h. h.server; put = λ l h. record h { server = l } }

abbrev pub channels_part : Part Held (List Channel)
channels_part = record { get = λ h. h.channels; put = λ l h. record h { channels = l } }

abbrev pub zmq_part : Part Held (List InputerResource)
zmq_part = record { get = λ h. h.zmq; put = λ l h. record h { zmq = l } }

abbrev pub parsers_part : Part Held ParsersHeld
parsers_part = record { get = λ h. h.parsers; put = λ p h. record h { parsers = p } }

abbrev pub pcap_part : Part Held (List CaptureResource)
pcap_part = record { get = λ h. h.pcap; put = λ l h. record h { pcap = l } }

-- What the libraries answer to each component.
pub record Answers : Type 0 where
  pub server : ServerAnswers
  pub inputer : InputerAnswers
  pub words : WordAnswers
  pub regexes : RegexAnswers
  pub capture : CaptureAnswers

-- `memset(&inptr, 0, …)` and `memset(&captr, 0, …)`
abbrev pub zeroed_inputer : Inputer
zeroed_inputer = record { shutdown = false; port = 0; puller = false; count = 0 }

abbrev pub zeroed_capture : Capture
zeroed_capture = record {
  device = [];
  filter = [];
  snaplen = pos 0;
  buffer_size = pos 0;
  shutdown = false;
  pkts = 0;
  bytes = 0;
  ps = record { ps_recv = 0; ps_drop = 0; ps_ifdrop = 0 };
  handle = false;
  bpf = false;
}

-- The arguments of `capture_open`.
abbrev pub capture_settings : Config → CaptureSettings
capture_settings c = record {
  device = c_str c.pcap_device;
  snaplen = c.pcap_snaplen;
  buffer_size = c.pcap_buffer_size;
  filter = c_str c.pcap_filter;
}

-- `cchan_new`, twice.
unfoldable pub new_channels : State Held (Unit {0})
new_channels = zoom channels_part (acquire chan_msg) >> zoom channels_part (acquire chan_pkt)

-- `cchan_free`, twice.
unfoldable pub free_channels : State Held (Unit {0})
free_channels =
    zoom channels_part (release tag chan_msg) >> zoom channels_part (release tag chan_pkt)

module _ (lib : Cre2) where
  -- The label `err`; `inputer_stop` frees nothing. The result of `main` is 1.
  unfoldable pub open_failed : Server → Policies lib → Capture → State Held ℕ
  unfolding magt_close capture_close parser_destroy free_channels
  open_failed s prsr captr =
      zoom server_part (magt_close s)
      >> (zoom pcap_part (capture_close captr) >>= λ _.
          zoom parsers_part (parser_destroy lib prsr) >>= λ _. free_channels >> pure 1)

  -- The threads are started, `magt_loop` runs to its end, and everything is closed.
  unfoldable pub run_and_close : Server → Policies lib → Capture → State Held ℕ
  unfolding magt_close loop_end capture_loop_stop capture_close parser_destroy free_channels
  run_and_close s prsr captr =
      zoom server_part (magt_close s)
      >> (zoom zmq_part loop_end
          >> (zoom pcap_part (capture_close (capture_loop_stop captr)) >>= λ _.
              zoom parsers_part (parser_destroy lib prsr) >>= λ _. free_channels >> pure 0))

  -- From the call of `capture_open` on.
  unfoldable pub open_capture : Config → Answers → Server → Policies lib → State Held ℕ
  unfolding capture_open open_failed run_and_close
  open_capture c a s prsr =
      zoom pcap_part (capture_open (capture_settings c) a.capture zeroed_capture) >>= λ r.
      if r.0 then run_and_close s prsr r.1 else open_failed s prsr r.1

  -- From the call of `parser_create` on.
  unfoldable pub open_parsers : Config → Answers → Server → State Held ℕ
  unfolding parser_create open_capture open_failed
  open_parsers c a s = zoom parsers_part (parser_create lib a.words a.regexes) >>= λ r.
      if r.0 then open_capture c a s r.1 else open_failed s r.1 zeroed_capture

  -- From the call of `inputer_open` on.
  unfoldable pub open_inputer : Config → Answers → Server → State Held ℕ
  unfolding inputer_open open_parsers open_failed
  open_inputer c a s = zoom zmq_part (inputer_open c.zmq_port a.inputer zeroed_inputer) >>= λ r.
      if r.0 then open_parsers c a s else open_failed s (zeroed_policies lib) zeroed_capture

  -- From the result of `magt_init` on.
  unfoldable pub open_all : Config → Answers → Option Server → State Held ℕ
  unfolding new_channels open_inputer
  open_all c a none = pure 1
  open_all c a (some s) = new_channels >> open_inputer c a s

  -- The result of `main`.
  unfoldable pub serve : Config → Answers → State Held ℕ
  unfolding magt_init open_all
  serve c a = zoom server_part (magt_init c.enable_ssl a.server) >>= open_all c a

-- ===== src/Packets.antt =====
-- apptpl/pkt.c, the callback and the loop of apptpl/capture.c, and apptpl/parser.c: packets from
-- libpcap, through the channel, to several parser threads that share one `struct parser`.
-- The schedule says which thread takes a step. A parser's round is cut at every access to what the
-- threads share: the test of the loop, the channel, each addition to a counter, and the end of
-- the packet. A call of `pkt_cb` is one step, since nobody else has its packet before it sends
-- it. `memory` is the number of packets that are allocated.
pub mod Turns
pub mod Closing
pub mod Captured
pub mod Refine
pub mod Counts
pub mod Order
use capptpl.Base.{
  Bool, Bytes, List, Option, [], false, get_or, if◌then◌else◌, none, replicate, set, some, suc,
  take, true, zero, ℕ, ◌%◌, ◌++◌, ◌+◌, ◌-◌, ◌^◌, ◌∷◌,
}
use capptpl.Channel.{Channel}

-- `struct packet`: `caplen` and `len` of its header, and its bytes.
pub record Packet : Type 0 where
  pub caplen : ℕ
  pub len : ℕ
  pub payload : Bytes

-- `TIMER_INTERVAL`, in seconds.
abbrev pub timer_seconds : ℕ
timer_seconds = 2

abbrev pub u64 : ℕ
u64 = 2 ^ 64

-- What the two policies find in a packet: how often the word callback is called, and the result
-- of `re_policy_match`.
pub record Matcher : Type 0 where
  pub words : Packet → ℕ
  pub regexes : Packet → ℕ

-- The counters of `struct parser`.
pub record Counters : Type 0 where
  pub count : ℕ
  pub bytes : ℕ
  pub word_match_count : ℕ
  pub regex_match_count : ℕ

abbrev pub no_counts : Counters
no_counts = record { count = 0; bytes = 0; word_match_count = 0; regex_match_count = 0 }

-- A parser thread: not started; at the test of its loop; in `cchan_waittime`; with a packet that it
-- has not counted; with one whose bytes it has not counted; with one of which so many words are
-- still to be counted; with one that it only has to free; or ended.
pub data Parser : Type 0 where
  waiting_start at_loop at_channel : Parser
  uncounted unsized : Packet → Parser
  matching : Packet → ℕ → Parser
  matched : Packet → Parser
  ended : Parser

pub data Event : Type 0 where
  -- libpcap calls back with `caplen`, `len` and the bytes; memory for the packet, and for its
  -- bytes, is there or not
  captured : ℕ → ℕ → Bytes → Bool → Bool → Event
  start_parser parser_turn : ℕ → Event
  stop_parsers timer_fired : Event

-- The packet, or NULL; where there is no memory for the bytes the packet is freed again.
unfoldable pub packet_new : ℕ → ℕ → Bytes → Bool → Bool → Option Packet
packet_new caplen len pktdata malloc_ok sds_ok =
    if malloc_ok
    then if sds_ok
      then some (record { caplen = caplen; len = len; payload = take caplen pktdata })
      else none
    else none

module _ (lib : Channel Packet) (matcher : Matcher) where
  open lib use {Queue, send, wait_time}

  -- `struct capture`'s counters, the channel, `struct parser` and the threads that run with it.
  -- `sent`, `taken` and `handled` record packets in their order.
  pub record State : Type 0 where
    pub pkts : ℕ
    pub bytes : ℕ
    pub chan_pkt : Queue
    pub shutdown : Bool
    pub timer_interval : ℕ
    pub counters : Counters
    pub parsers : List Parser
    pub memory : ℕ
    pub sent : List Packet
    pub taken : List Packet
    pub handled : List Packet

  -- `n` threads that have not begun.
  unfoldable pub initial : ℕ → State
  initial n = record {
    pkts = 0;
    bytes = 0;
    chan_pkt = lib.new;
    shutdown = false;
    timer_interval = 0;
    counters = no_counts;
    parsers = replicate n waiting_start;
    memory = 0;
    sent = [];
    taken = [];
    handled = [];
  }

  -- `pkt_cb` behind its two counters.
  unfoldable pub queue_packet : Option Packet → State → State
  queue_packet none s = s
  queue_packet (some p) s = record s {
    chan_pkt = send p s.chan_pkt;
    memory = s.memory + 1;
    sent = s.sent ++ p ∷ [];
  }

  unfoldable pub pkt_cb : ℕ → ℕ → Bytes → Bool → Bool → State → State
  unfolding packet_new queue_packet
  pkt_cb caplen len pktdata malloc_ok sds_ok s =
      queue_packet (packet_new caplen len pktdata malloc_ok sds_ok)
        (record s { pkts = (s.pkts + 1) % u64; bytes = (s.bytes + caplen) % u64 })

  -- The start of `parser_loop`.
  unfoldable pub begin_loop : ℕ → Parser → State → State
  begin_loop i waiting_start s = record s {
    shutdown = false;
    counters = no_counts;
    parsers = set s.parsers i at_loop;
  }
  begin_loop i _ s = s

  -- `atomic_fetch_add(&prsr->count, 1)`
  unfoldable pub count_packet : Counters → Counters
  count_packet c = record c { count = (c.count + 1) % u64 }

  -- `atomic_fetch_add(&prsr->bytes, pkt->hdr.caplen)`
  unfoldable pub count_bytes : Packet → Counters → Counters
  count_bytes p c = record c { bytes = (c.bytes + p.caplen) % u64 }

  -- `atomic_fetch_add(&prsr->word_match_count, 1)`
  unfoldable pub count_word : Counters → Counters
  count_word c = record c { word_match_count = (c.word_match_count + 1) % u64 }

  -- `atomic_fetch_add(&prsr->regex_match_count, rc)`
  unfoldable pub count_patterns : Packet → Counters → Counters
  count_patterns p c = record c {
    regex_match_count = (c.regex_match_count + matcher.regexes p) % u64;
  }

  -- `cchan_waittime` has returned.
  unfoldable pub receive_packet : ℕ → Option (Packet × Queue) → State → State
  receive_packet i none s = record s { parsers = set s.parsers i at_loop }
  receive_packet i (some (p, q)) s = record s {
    chan_pkt = q;
    parsers = set s.parsers i (uncounted p);
    taken = s.taken ++ p ∷ [];
  }

  -- The next step of the round of thread `i`.
  unfoldable pub parser_step : ℕ → Parser → State → State
  unfolding receive_packet count_packet count_bytes count_word count_patterns
  parser_step i at_loop s =
      if s.shutdown
      then record s { parsers = set s.parsers i ended }
      else record s { timer_interval = 0; parsers = set s.parsers i at_channel }
  parser_step i at_channel s = receive_packet i (wait_time s.chan_pkt) s
  parser_step i (uncounted p) s = record s {
    counters = count_packet s.counters;
    parsers = set s.parsers i (unsized p);
  }
  parser_step i (unsized p) s = record s {
    counters = count_bytes p s.counters;
    parsers = set s.parsers i (matching p (matcher.words p));
  }
  parser_step i (matching p (suc k)) s = record s {
    counters = count_word s.counters;
    parsers = set s.parsers i (matching p k);
  }
  parser_step i (matching p zero) s = record s {
    counters = count_patterns p s.counters;
    parsers = set s.parsers i (matched p);
  }
  parser_step i (matched p) s = record s {
    parsers = set s.parsers i at_loop;
    memory = s.memory - 1;
    handled = s.handled ++ p ∷ [];
  }
  parser_step i waiting_start s = s
  parser_step i ended s = s

  unfoldable pub parser_time_ev : ℕ → State → State
  parser_time_ev seconds s = record s { timer_interval = seconds }

  -- A thread that is not there is `ended`.
  unfoldable pub step : Event → State → State
  unfolding pkt_cb begin_loop parser_step parser_time_ev
  step (captured caplen len pktdata malloc_ok sds_ok) s =
      pkt_cb caplen len pktdata malloc_ok sds_ok s
  step (start_parser i) s = begin_loop i (get_or s.parsers i ended) s
  step (parser_turn i) s = parser_step i (get_or s.parsers i ended) s
  step stop_parsers s = record s { shutdown = true }
  step timer_fired s = parser_time_ev timer_seconds s

  unfoldable pub run : List Event → State → State
  unfolding step
  run [] s = s
  run (e ∷ es) s = run es (step e s)

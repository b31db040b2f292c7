-- ===== src/Http/Live.antt =====
-- What apptpl's HTTP interface says of threads that are running: `struct app` (apptpl/myconfig.h)
-- points to the structs that the threads change, and a handler reads one counter after the other.
pub mod Answer
use capptpl.Base.{Bytes, List, [], codes, ℕ, ◌∷◌}
use capptpl.Base.Chars.{decimal}
use capptpl.Capture.{Capture}
use capptpl.Channel.{Channel}
use capptpl.Config.{Config}
use capptpl.Http.{App}
use capptpl.Messages.{Threads}
use capptpl.Packets.{Matcher, Packet, State}
use capptpl.Program.{chan_pkt}
use capptpl.Reports.{as_int}

-- What the answer to `/stats` is to show: the numbers behind their labels.
unfoldable pub labelled : App → List (Bytes × Bytes)
labelled app =
    (codes "{ \"capture\": { \"pkts\": ", decimal app.captr.pkts)
    ∷ (codes ", \"bytes\": ", decimal app.captr.bytes)
    ∷ (codes ", \"pcap\": { \"ps_recv\": ", as_int app.captr.ps.ps_recv)
    ∷ (codes ", \"ps_drop\": ", as_int app.captr.ps.ps_drop)
    ∷ (codes ", \"ps_ifdrop\": ", as_int app.captr.ps.ps_ifdrop)
    ∷ (codes " } },\"parser\": { \"pkts\": ", decimal app.counters.count)
    ∷ (codes ", \"bytes\": ", decimal app.counters.bytes)
    ∷ (codes ", \"word_match_count\": ", decimal app.counters.word_match_count)
    ∷ (codes ", \"regex_match_count\": ", decimal app.counters.regex_match_count)
    ∷ (codes " }, \"inputer\": { \"count\": ", decimal app.received_count)
    ∷ (codes " },  \"worker\": { \"count\": ", decimal app.worker_count)
    ∷ []

module _ (packets : Channel Packet) (matcher : Matcher) (messages : Channel Bytes) where
  -- The state of the threads at the moment at which each counter is read.
  pub record Moments : Type 0 where
    pub pkts_at : State packets matcher
    pub bytes_at : State packets matcher
    pub count_at : State packets matcher
    pub size_at : State packets matcher
    pub words_at : State packets matcher
    pub regexes_at : State packets matcher
    pub used_at : State packets matcher
    pub arrived_at : Threads messages
    pub handled_at : Threads messages

  -- What `main` puts into `struct app`, as a handler finds it.
  unfoldable pub app_of : Config → Capture → ℕ → Moments → App
  app_of config captr alloc t = record {
    config = config;
    captr = record captr { pkts = t.pkts_at.pkts; bytes = t.bytes_at.bytes };
    counters = record {
      count = t.count_at.counters.count;
      bytes = t.size_at.counters.bytes;
      word_match_count = t.words_at.counters.word_match_count;
      regex_match_count = t.regexes_at.counters.regex_match_count;
    };
    alloc = alloc;
    used = packets.used t.used_at.chan_pkt;
    received_count = t.arrived_at.inputer_count;
    worker_count = t.handled_at.worker_count;
  }

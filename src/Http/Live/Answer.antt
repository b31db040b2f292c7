-- ===== src/Http/Live/Answer.antt =====
-- The answer to `/stats` while the threads run.
use capptpl.Messages.{
  Event as MessageEvent, initial as initial_threads, run as run_messages, start_inputer,
  start_worker,
}
use capptpl.Packets.{Event as PacketEvent, initial as initial_packets, run as run_packets}
use capptpl.Messages.Counts.{IsNoStart as IsNoThreadStart, run-IsCounted}
use capptpl.Packets.Counts.{IsNoStart as IsNoParserStart, run_packets-IsCounted, start_all}
use capptpl.Base.{
  All, Bytes, List, Option, [], ap, arith, codes, length, none, refl, some, str_eq, ℕ, ◌%◌, ◌++◌,
  ◌+◌, ◌∙◌, ◌∷◌, ◌≡◌,
}
use capptpl.Capture.{Capture, Stats, capture_stats}
use capptpl.Channel.{Channel}
use capptpl.Config.{Config}
use capptpl.Http.{
  App, Lib, all_routes, find_route, get_method, json_type, reply, send_body, stats_handler,
}
use capptpl.Http.Handle.{api_handler, find_and_handle, handle_path, handle_uri, page_handler}
use capptpl.Http.Live.{Moments, app_of, labelled}
use capptpl.Messages.{Threads}
use capptpl.Packets.{Matcher, Packet, State, u64}
use capptpl.Packets.Captured.{captured_bytes, captures, run_packets-captured}
use capptpl.Packets.Order.{sum_of, total}
use capptpl.Packets.Turns.{Fits, regexes_left, to_count, to_size, words_left}
use capptpl.Reports.{render, stats_fields, stats_text}
use capptpl.Reports.Length.{IsMachine, stats_text-render}

stats_fields-labelled :
    (app : App)
    → stats_fields app.captr app.counters app.received_count app.worker_count ≡ labelled app
unfolding stats_fields labelled
stats_fields-labelled app = refl

module _ (packets : Channel Packet) (matcher : Matcher) (messages : Channel Bytes) where
  stats_reply :
      (lib : Lib) (app : App) (uri path : Bytes)
      → lib.uri_parse uri ≡ some (some path)
      → lib.uridecode path ≡ some (codes "/stats")
      → api_handler lib all_routes get_method uri app []
        ≡ some (
          (
            record app { captr = (capture_stats lib.stats app.captr).1 },
            reply json_type (
                  stats_text
                    (capture_stats lib.stats app.captr).1
                    app.counters
                    app.received_count
                    app.worker_count)
                ∷ [],
          ),
          [],
        )
  unfolding api_handler handle_uri handle_path find_route find_and_handle page_handler stats_handler
      send_body str_eq
  stats_reply lib app uri path e d = rw (e, handle_uri) (rw (d, handle_path) refl)

  capture_stats-counts :
      (stats : Option Stats) (c : Capture)
      → ((capture_stats stats c).1.pkts ≡ c.pkts) × ((capture_stats stats c).1.bytes ≡ c.bytes)
  unfolding capture_stats
  capture_stats-counts none c = ground arith
  capture_stats-counts (some x) c = ground arith

  -- The schedules up to the moments at which the counters are read, once all threads have started.
  pub record Schedules : Type 0 where
    pub pkts_es : List PacketEvent
    pub bytes_es : List PacketEvent
    pub count_es : List PacketEvent
    pub size_es : List PacketEvent
    pub words_es : List PacketEvent
    pub regexes_es : List PacketEvent
    pub arrived_es : List MessageEvent
    pub handled_es : List MessageEvent

  -- No thread starts again.
  pub record HasNoStart (e : Schedules) : Type 0 where
    pub count_none : All IsNoParserStart e.count_es
    pub size_none : All IsNoParserStart e.size_es
    pub words_none : All IsNoParserStart e.words_es
    pub regexes_none : All IsNoParserStart e.regexes_es
    pub arrived_none : All IsNoThreadStart e.arrived_es
    pub handled_none : All IsNoThreadStart e.handled_es

  unfoldable pub after_packets : ℕ → List PacketEvent → State packets matcher
  after_packets n es =
      run_packets packets matcher (start_all n ++ es) (initial_packets packets matcher n)

  unfoldable pub after_messages : List MessageEvent → Threads messages
  after_messages es =
      run_messages messages (start_worker ∷ start_inputer ∷ es) (initial_threads messages)

  unfoldable pub moments_of : ℕ → Schedules → Moments packets matcher messages
  unfolding after_packets after_messages
  moments_of n e = record {
    pkts_at = after_packets n e.pkts_es;
    bytes_at = after_packets n e.bytes_es;
    count_at = after_packets n e.count_es;
    size_at = after_packets n e.size_es;
    words_at = after_packets n e.words_es;
    regexes_at = after_packets n e.regexes_es;
    used_at = after_packets n e.regexes_es;
    arrived_at = after_messages e.arrived_es;
    handled_at = after_messages e.handled_es;
  }

  -- What the numbers of an answer are.
  pub record IsTrue (n : ℕ) (e : Schedules) (app : App) : Type 0 where
    pub pkts_true : app.captr.pkts ≡ captures (start_all n ++ e.pkts_es) % u64
    pub bytes_true : app.captr.bytes ≡ captured_bytes (start_all n ++ e.bytes_es) % u64
    pub count_true :
        (app.counters.count + total to_count (after_packets n e.count_es).parsers) % u64
        ≡ length (after_packets n e.count_es).taken % u64
    pub size_true :
        (app.counters.bytes + total to_size (after_packets n e.size_es).parsers) % u64
        ≡ sum_of (λ p. p.caplen) (after_packets n e.size_es).taken % u64
    pub words_true :
        (app.counters.word_match_count
            + total (words_left matcher) (after_packets n e.words_es).parsers)
          % u64
        ≡ sum_of matcher.words (after_packets n e.words_es).taken % u64
    pub regexes_true :
        (app.counters.regex_match_count
            + total (regexes_left matcher) (after_packets n e.regexes_es).parsers)
          % u64
        ≡ sum_of matcher.regexes (after_packets n e.regexes_es).taken % u64
    pub arrived_true : app.received_count ≡ length (after_messages e.arrived_es).arrived % u64
    pub handled_true : app.worker_count ≡ length (after_messages e.handled_es).handled % u64

  app_of-IsTrue :
      (n : ℕ) (e : Schedules) (config : Config) (captr : Capture) (alloc : ℕ)
      → HasNoStart e
      → IsTrue n e (app_of packets matcher messages config captr alloc (moments_of n e))
        × Fits (app_of packets matcher messages config captr alloc (moments_of n e)).counters
  unfolding app_of moments_of after_packets after_messages
  app_of-IsTrue n e config captr alloc h =
      let c = run_packets-IsCounted packets matcher n e.count_es h.count_none in
      let b = run_packets-IsCounted packets matcher n e.size_es h.size_none in
      let w = run_packets-IsCounted packets matcher n e.words_es h.words_none in
      let r = run_packets-IsCounted packets matcher n e.regexes_es h.regexes_none in
      (
        record {
          pkts_true = (run_packets-captured packets matcher n (start_all n ++ e.pkts_es)).0;
          bytes_true = (run_packets-captured packets matcher n (start_all n ++ e.bytes_es)).1;
          count_true = c.packets;
          size_true = b.bytes;
          words_true = w.words;
          regexes_true = r.regexes;
          arrived_true = (run-IsCounted messages e.arrived_es h.arrived_none).arrived_counted;
          handled_true = (run-IsCounted messages e.handled_es h.handled_none).handled_counted;
        },
        (c.fits.0, b.fits.1, w.fits.2, r.fits.3),
      )

  true-IsMachine :
      (n : ℕ) (e : Schedules) (stats : Option Stats) (app : App)
      → IsTrue n e app
      → Fits app.counters
      → IsMachine (capture_stats stats app.captr).1 app.counters app.received_count app.worker_count
  true-IsMachine n e stats app t f =
      let same = capture_stats-counts stats app.captr in
      record {
        pkts_fits = omega (arith, same.0, t.pkts_true);
        bytes_fits = omega (arith, same.1, t.bytes_true);
        count_fits = f.0;
        parsed_fits = f.1;
        words_fits = f.2;
        regexes_fits = f.3;
        messages_fits = omega (arith, t.arrived_true);
        works_fits = omega (arith, t.handled_true);
      }

  -- The answer to `/stats`, where each counter is read at its own moment, after a schedule of its own:
  -- once all parser threads, the worker and the inputer have started, `api_handler` answers a GET of a
  -- URI whose decoded path is `/stats` with one reply of code 200, with the whole text of the numbers
  -- behind their labels, and frees all that it has allocated. Each number is true of the moment at which
  -- it is read, modulo 2 ^ 64: how often libpcap has called back and the bytes that it has captured; the
  -- packets that any parser thread has taken, their bytes, and the matches of both kinds in them, each less
  -- what the threads have still to add for the packets that they have; and the messages that have been
  -- counted by the inputer and by the worker.
  pub api_handler-stats :
      (lib : Lib) (uri path : Bytes) (config : Config) (captr : Capture) (alloc n : ℕ)
      (e : Schedules)
      → lib.uri_parse uri ≡ some (some path)
      → lib.uridecode path ≡ some (codes "/stats")
      → HasNoStart e
      → let app = app_of packets matcher messages config captr alloc (moments_of n e) in
        let c = (capture_stats lib.stats app.captr).1 in
        (api_handler lib all_routes get_method uri app []
          ≡ some (
            (
              record app { captr = c },
              reply json_type (render (labelled (record app { captr = c })) (codes " } }")) ∷ [],
            ),
            [],
          ))
        × IsTrue n e app
  api_handler-stats lib uri path config captr alloc n e parses decodes h =
      let app = app_of packets matcher messages config captr alloc (moments_of n e) in
      let (t, f) = app_of-IsTrue n e config captr alloc h in
      (
        stats_reply lib app uri path parses decodes
            ∙ ap
                (λ body. some (
                  (
                    record app { captr = (capture_stats lib.stats app.captr).1 },
                    reply json_type body ∷ [],
                  ),
                  [],
                ))
                (stats_text-render _ _ _ _ (true-IsMachine n e lib.stats app t f)
                  ∙ ap (λ fields. render fields (codes " } }"))
                      (stats_fields-labelled
                        (record app { captr = (capture_stats lib.stats app.captr).1 }))),
        t,
      )

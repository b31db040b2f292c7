-- ===== src/Tests/Live.antt =====
-- What the HTTP interface says of running threads, at a concrete schedule.
use capptpl.Messages.{Event as MessageEvent, inputer_round, received}
use capptpl.Packets.{Event as PacketEvent}
use capptpl.Tests.Http.{plain_lib, closed as closed_capture}
use capptpl.Base.{Bytes, List, [], codes, refl, some, true, ◌++◌, ◌∷◌, ◌≡◌}
use capptpl.Capture.{capture_stats}
use capptpl.Channel.{Channel, list_channel}
use capptpl.Config.{zeroed}
use capptpl.Http.{all_routes, get_method, json_type, reply}
use capptpl.Http.Handle.{api_handler}
use capptpl.Http.Live.{app_of, labelled}
use capptpl.Http.Live.Answer.{HasNoStart, IsTrue, Schedules, api_handler-stats, moments_of}
use capptpl.Messages.{receive_timeout}
use capptpl.Packets.{Matcher, Packet, captured, parser_turn}
use capptpl.Reports.{render}

abbrev packets : Channel Packet
packets = list_channel Packet

abbrev messages : Channel Bytes
messages = list_channel Bytes

abbrev one_match : Matcher
one_match = record { words = λ p. 2; regexes = λ p. 1 }

abbrev one_taken : List PacketEvent
one_taken =
    captured 5 60 (codes "hello") true true ∷ parser_turn 0 ∷ parser_turn 0 ∷ parser_turn 0 ∷ []

abbrev one_message : List MessageEvent
one_message = inputer_round receive_timeout ∷ inputer_round (received (codes "one")) ∷ []

-- The bytes are read a step later than the count.
abbrev reads : Schedules packets one_match messages
reads = record {
  pkts_es = [];
  bytes_es = one_taken;
  count_es = one_taken;
  size_es = one_taken ++ parser_turn 0 ∷ [];
  words_es = one_taken ++ parser_turn 0 ∷ [];
  regexes_es = one_taken ++ parser_turn 0 ∷ [];
  arrived_es = one_message;
  handled_es = one_message;
}

reads-HasNoStart : HasNoStart packets one_match messages reads
reads-HasNoStart = record {
  count_none = (tt, (tt, (tt, (tt, tt))));
  size_none = (tt, (tt, (tt, (tt, (tt, tt)))));
  words_none = (tt, (tt, (tt, (tt, (tt, tt)))));
  regexes_none = (tt, (tt, (tt, (tt, (tt, tt)))));
  arrived_none = (tt, (tt, tt));
  handled_none = (tt, (tt, tt));
}

api_handler-stats_example :
    let app =
      app_of packets one_match messages zeroed closed_capture 8
        (moments_of packets one_match messages 1 reads) in
    let c = (capture_stats plain_lib.stats app.captr).1 in
    (api_handler plain_lib all_routes get_method (codes "/stats") app []
      ≡ some (
        (
          record app { captr = c },
          reply json_type (render (labelled (record app { captr = c })) (codes " } }")) ∷ [],
        ),
        [],
      ))
    × IsTrue packets one_match messages 1 reads app
api_handler-stats_example =
    api_handler-stats packets one_match messages plain_lib (codes "/stats") (codes "/stats") zeroed
      closed_capture 8 1 reads refl refl reads-HasNoStart

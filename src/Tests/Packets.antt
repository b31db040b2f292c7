-- ===== src/Tests/Packets.antt =====
-- libpcap, the channel and two parser threads at a concrete schedule.
use capptpl.Base.{
  List, [], arith, codes, false, length, refl, suc, true, zero, ℕ, ◌++◌, ◌∷◌, ◌≡◌, ◌≤◌,
}
use capptpl.Channel.{Channel, list_channel}
use capptpl.Channel.Pipe.{Moves}
use capptpl.Packets.{
  Event, Matcher, Packet, State, begin_loop, captured, count_bytes, count_packet, count_patterns,
  count_word, initial, packet_new, parser_step, parser_turn, pkt_cb, queue_packet, receive_packet,
  run, step,
}
use capptpl.Packets.Closing.{close_parsers, distance, far, turns, words_waiting}
use capptpl.Packets.Closing.Joined.{IsBegun, Joined, close_parsers-Joined}
use capptpl.Packets.Counts.{run_packets-IsCounted, start_all}
use capptpl.Packets.Order.{IsSound, run_packets-IsSound}
use capptpl.Packets.Refine.{run_packets-Moves, view}
use capptpl.Packets.Turns.{IsCounted}

abbrev queue : Channel Packet
queue = list_channel Packet

abbrev matcher : Matcher
matcher = record { words = λ p. length p.payload; regexes = λ p. 1 }

abbrev two_packets : List Event
two_packets =
    captured 3 60 (codes "abc") true true
    ∷ captured 2 2 (codes "de") true true
    ∷ captured 2 2 (codes "fg") true false
    ∷ parser_turn 1
    ∷ parser_turn 0
    ∷ parser_turn 1
    ∷ parser_turn 0
    ∷ parser_turn 0
    ∷ parser_turn 1
    ∷ parser_turn 0
    ∷ parser_turn 0
    ∷ parser_turn 0
    ∷ []

abbrev both_running : State queue matcher
both_running = run queue matcher (start_all 2 ++ two_packets) (initial queue matcher 2)

both_running_lem :
    (both_running.memory ≡ 2)
    × (both_running.pkts ≡ 3)
    × (both_running.counters
        ≡ record { count = 2; bytes = 2; word_match_count = 2; regex_match_count = 0 })
unfolding run step pkt_cb packet_new queue_packet begin_loop parser_step receive_packet count_packet
    count_bytes count_word count_patterns initial start_all
both_running_lem = (refl, refl, refl)

run_packets-IsSound_example :
    IsSound queue matcher (run queue matcher (start_all 2 ++ two_packets) (initial queue matcher 2))
run_packets-IsSound_example = run_packets-IsSound queue matcher 2 (start_all 2 ++ two_packets)

run_packets-IsCounted_example :
    IsCounted queue matcher
      (run queue matcher (start_all 2 ++ two_packets) (initial queue matcher 2))
run_packets-IsCounted_example =
    run_packets-IsCounted queue matcher 2 two_packets
      (tt, (tt, (tt, (tt, (tt, (tt, (tt, (tt, (tt, (tt, (tt, (tt, tt))))))))))))

run_packets-Moves_example :
    Moves
      (view queue matcher both_running)
      (view queue matcher (run queue matcher two_packets both_running))
run_packets-Moves_example = run_packets-Moves queue matcher two_packets both_running

abbrev last_turns : List Event
last_turns =
    parser_turn 1
    ∷ parser_turn 0
    ∷ parser_turn 1
    ∷ parser_turn 0
    ∷ parser_turn 1
    ∷ parser_turn 0
    ∷ parser_turn 1
    ∷ parser_turn 1
    ∷ parser_turn 1
    ∷ parser_turn 1
    ∷ []

begun_lem : IsBegun queue matcher both_running
unfolding run step pkt_cb packet_new queue_packet begin_loop parser_step receive_packet count_packet
    count_bytes count_word count_patterns initial start_all
begun_lem zero = λ e. cc e
begun_lem (suc zero) = λ e. cc e
begun_lem (suc (suc i)) = λ e. cc e

turns_lem : (i : ℕ) → far queue matcher i both_running ≤ turns i last_turns
unfolding run step pkt_cb packet_new queue_packet begin_loop parser_step receive_packet count_packet
    count_bytes count_word count_patterns initial start_all far distance words_waiting
turns_lem zero = omega arith
turns_lem (suc zero) = omega arith
turns_lem (suc (suc i)) = omega arith

close_parsers-Joined_example :
    Joined queue matcher both_running (close_parsers queue matcher last_turns both_running)
close_parsers-Joined_example =
    close_parsers-Joined queue matcher 2 (start_all 2 ++ two_packets) last_turns
      (tt, (tt, (tt, (tt, (tt, (tt, (tt, (tt, (tt, (tt, tt)))))))))) begun_lem turns_lem

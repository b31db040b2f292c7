-- ===== src/Tests/Messages.antt =====
-- The inputer, the worker and their channel at concrete schedules.
use capptpl.Base.{Bytes, List, [], codes, refl, true, ◌∷◌, ◌≡◌}
use capptpl.Channel.{Channel, list_channel}
use capptpl.Channel.Pipe.{Moves, Pipe, accept, deliver, still}
use capptpl.Messages.{
  Event, Threads, allocate_message, free_message, handle_message, initial, inputer_round,
  inputer_step, receive_message, receive_timeout, received, run, start_inputer, start_worker, step,
  stop_inputer, worker_round, worker_step,
}
use capptpl.Messages.Counts.{IsCounted, run-IsCounted}
use capptpl.Messages.Order.{IsSound, run-IsSound}
use capptpl.Messages.Refine.{IsRunning, run-Moves, run_all, view}
use capptpl.Messages.Stop.{run-stop_lost}

abbrev queue : Channel Bytes
queue = list_channel Bytes

abbrev two_messages : List Event
two_messages =
    inputer_round receive_timeout
    ∷ inputer_round (received (codes "one"))
    ∷ inputer_round receive_timeout
    ∷ worker_round
    ∷ worker_round
    ∷ inputer_round (received (codes "two"))
    ∷ []

abbrev busy : Threads queue
busy = run queue (start_worker ∷ start_inputer ∷ two_messages) (initial queue)

busy_handled : busy.handled ≡ codes "one" ∷ []
unfolding run step inputer_step allocate_message receive_message worker_step handle_message
    free_message initial
busy_handled = refl

run-IsSound_example :
    IsSound queue (run queue (start_worker ∷ start_inputer ∷ two_messages) (initial queue))
run-IsSound_example = run-IsSound queue (start_worker ∷ start_inputer ∷ two_messages)

run-IsCounted_example :
    IsCounted queue (run queue (start_worker ∷ start_inputer ∷ two_messages) (initial queue))
run-IsCounted_example = run-IsCounted queue two_messages (tt, (tt, (tt, (tt, (tt, (tt, tt))))))

run-stop_lost_example :
    (run queue (stop_inputer ∷ start_inputer ∷ two_messages) (initial queue)).inputer_running ≡ true
run-stop_lost_example =
    run-stop_lost queue two_messages (initial queue) (tt, (tt, (tt, (tt, (tt, (tt, tt))))))

run-Moves_example : Moves (view queue busy) (view queue (run queue two_messages busy))
run-Moves_example = run-Moves queue two_messages busy

abbrev three_handled : Pipe Bytes
three_handled = record {
  accepted = codes "one" ∷ codes "two" ∷ codes "three" ∷ [];
  waiting = [];
  delivered = codes "one" ∷ codes "two" ∷ codes "three" ∷ [];
}

run_all_example :
    (es : List Event) × (view queue (run queue es busy) ≡ three_handled)
    × IsRunning queue (run queue es busy)
unfolding view run step inputer_step allocate_message receive_message worker_step handle_message
    free_message initial
run_all_example =
    run_all queue busy three_handled (refl, refl, refl, refl)
      (deliver (codes "three") [] refl
        (deliver (codes "two") (codes "three" ∷ []) refl (accept (codes "three") still)))

abbrev after_two : List Event
after_two = start_worker ∷ start_inputer ∷ two_messages

abbrev last_rounds : List Event
last_rounds = inputer_round (received (codes "late")) ∷ inputer_round receive_timeout ∷ []

abbrev last_works : List Event
last_works = worker_round ∷ worker_round ∷ worker_round ∷ worker_round ∷ []

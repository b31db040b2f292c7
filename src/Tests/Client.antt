-- ===== src/Tests/Client.antt =====
-- The configuration of the second program and its redis client.
use mathlib.Core.Option
use capptpl.Client.{Call as Line}
use capptpl.Client.Redis.{Event as Callback}
use capptpl.Base.{
  Bytes, List, [], arith, c_str, codes, refl, replicate, some, str_eq, true, ℕ, ◌++◌, ◌∷◌, ◌≡◌, ◌⊎◌,
}
use capptpl.Base.Chars.{
  atoi, decimal, digits_value, is_digit, is_space, skip_spaces, strncpy, strtol, to_int, to_u16,
}
use capptpl.Client.{
  ClientConfig, client_assign, client_calls, client_ini_callback, client_item_of, client_zeroed,
}
use capptpl.Client.Redis.{
  auth_text, client_run, client_step, connected, error_reply, nil_reply, on_event, on_redis_auth,
  on_redis_connect, on_redis_pop, pop_text, redis_connect, replied, send_command, status_reply,
}
use capptpl.Client.Redis.Protocol.{client_run_sent, opening}
use capptpl.Client.Update.{
  IsSound, client_calls-updates, client_zeroed-IsSound, settings_of, updates,
}
use capptpl.Config.{matches}

abbrev three_lines : List Line
three_lines =
    record { section = codes "redis"; name = codes "list"; value = codes "queue1" }
    ∷ record { section = codes "redis"; name = codes "port"; value = codes "6379" }
    ∷ record { section = codes "redis"; name = codes "name"; value = codes "x" }
    ∷ []

three_lines_lem :
    Option.map {B = Bytes × ℕ}
      (λ (c : ClientConfig). (c_str c.redis_list, c.redis_port))
      (client_calls three_lines client_zeroed)
    ≡ some (codes "queue1", 6379)
unfolding client_calls client_zeroed client_ini_callback client_item_of matches client_assign str_eq
    strncpy atoi strtol to_int to_u16 c_str skip_spaces digits_value is_space is_digit
three_lines_lem = refl

client_calls-updates_example :
    (c' : ClientConfig) × (client_calls three_lines client_zeroed ≡ some c')
    × IsSound c'
    × (settings_of c' ≡ updates three_lines (settings_of client_zeroed))
client_calls-updates_example =
    client_calls-updates three_lines client_zeroed client_zeroed-IsSound (omega arith)

abbrev two_requests : List Callback
two_requests =
    connected true true
    ∷ replied status_reply true
    ∷ replied nil_reply true
    ∷ replied error_reply true
    ∷ []

two_requests_lem :
    (client_run (λ s. s) two_requests (redis_connect (codes "pw") (codes "queue1"))).sent
    ≡ codes "AUTH pw" ∷ codes "BRPOP queue1 10" ∷ codes "BRPOP queue1 10" ∷ []
unfolding client_run client_step on_event on_redis_connect on_redis_auth on_redis_pop send_command
    redis_connect pop_text auth_text decimal
two_requests_lem = refl

client_run_sent_example :
    ((client_run (λ s. s) two_requests (redis_connect (codes "pw") (codes "queue1"))).sent ≡ [])
    ⊎ ((n : ℕ) × ((client_run
            (λ s. s)
            two_requests
            (redis_connect (codes "pw") (codes "queue1"))).sent
          ≡ opening (codes "pw") ++ replicate n (codes "BRPOP " ++ codes "queue1" ++ codes " 10")))
client_run_sent_example =
    client_run_sent (λ s. s) (codes "pw") (codes "queue1") two_requests (λ s h. refl) (omega arith)
      (omega arith) (omega arith)

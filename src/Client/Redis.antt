-- ===== src/Client/Redis.antt =====
-- apptpl2/doredis.c: the callbacks of the redis client and the texts that it sends. hiredis calls
-- back: each event carries what it reports, and whether `redisAsyncCommand` takes the next text.
pub mod Protocol
use capptpl.Base.{
  Bool, Bytes, List, [], codes, false, if◌then◌else◌, length, ltb, take, true, ◌++◌, ◌-◌, ◌∷◌,
}
use capptpl.Base.Chars.{decimal}

-- The reply that a callback gets; `other_reply` is any other type.
pub data Reply : Type 0 where
  null_reply error_reply status_reply nil_reply array_reply other_reply : Reply

-- What the client waits for: the connection, the timer to reconnect, the timer of `do_redis_pop`,
-- the reply to a command, or nothing.
pub data Phase : Type 0 where
  connecting reconnect_timer pop_timer auth_sent pop_sent silent : Phase

pub data Event : Type 0 where
  -- the status, then whether the text is taken
  connected : Bool → Bool → Event
  -- whether `redis_connect` returns 0
  reconnect : Bool → Event
  pop_time : Bool → Event
  replied : Reply → Bool → Event

-- The variables of the file, with the commands that have been sent; `redis_status` is whether the
-- status is REDIS_OK, and `redis_ctx` whether the pointer is not NULL.
pub record Client : Type 0 where
  pub phase : Phase
  pub redis_ctx : Bool
  pub redis_status : Bool
  pub redis_passwd : Bytes
  pub redis_cmd : Bytes
  pub sent : List Bytes

-- `snprintf(redis_cmd, sizeof(redis_cmd)-1, "BRPOP %s %d", redis_list, expired)` with 128 bytes.
unfoldable pub pop_text : Bytes → Bytes
pop_text list = take (128 - 1 - 1) (codes "BRPOP " ++ list ++ (codes " " ++ decimal 10))

-- `snprintf(tmp, sizeof(tmp)-1, "AUTH %s", redis_passwd)` with 64 bytes.
unfoldable pub auth_text : Bytes → Bytes
auth_text passwd = take (64 - 1 - 1) (codes "AUTH " ++ passwd)

-- What `redis_connect` leaves where it returns 0, with the password and the list of the
-- configuration.
unfoldable pub redis_connect : Bytes → Bytes → Client
unfolding pop_text
redis_connect passwd list = record {
  phase = connecting;
  redis_ctx = true;
  redis_status = true;
  redis_passwd = passwd;
  redis_cmd = pop_text list;
  sent = [];
}

-- `format` is what hiredis makes of a format with no arguments.
module _ (format : Bytes → Bytes) where
  -- `redisAsyncCommand`, whose argument is a format; where it fails no reply will come.
  unfoldable pub send_command : Bool → Phase → Bytes → Client → Client
  send_command taken phase text c =
      if taken
      then record c { phase = phase; sent = c.sent ++ format text ∷ [] }
      else record c { phase = silent }

  unfoldable pub on_redis_connect : Bool → Bool → Client → Client
  unfolding send_command auth_text
  on_redis_connect ok taken c =
      if ok
      then if ltb 0 (length c.redis_passwd)
        then send_command taken auth_sent (auth_text c.redis_passwd)
            (record c { redis_status = true })
        else record c { redis_status = true; phase = pop_timer }
      else record c { redis_status = false; redis_ctx = false; phase = reconnect_timer }

  unfoldable pub on_redis_auth : Reply → Bool → Client → Client
  unfolding send_command
  on_redis_auth status_reply taken c = send_command taken pop_sent c.redis_cmd c
  on_redis_auth _ taken c = record c { redis_status = false; phase = silent }

  unfoldable pub on_redis_pop : Reply → Bool → Client → Client
  unfolding send_command
  on_redis_pop null_reply taken c = record c { phase = silent }
  on_redis_pop error_reply taken c = record c { redis_status = false; phase = silent }
  on_redis_pop _ taken c = send_command taken pop_sent c.redis_cmd c

  -- The callback for an event; an event is without effect where the client does not wait for it.
  unfoldable pub on_event : Phase → Event → Client → Client
  unfolding on_redis_connect send_command on_redis_auth on_redis_pop
  on_event connecting (connected ok taken) c = on_redis_connect ok taken c
  on_event reconnect_timer (reconnect ok) c =
      if ok then record c { phase = connecting; redis_ctx = true } else record c { phase = silent }
  on_event pop_timer (pop_time taken) c = send_command taken pop_sent c.redis_cmd c
  on_event auth_sent (replied r taken) c = on_redis_auth r taken c
  on_event pop_sent (replied r taken) c = on_redis_pop r taken c
  on_event _ _ c = c

  unfoldable pub client_step : Event → Client → Client
  unfolding on_event
  client_step e c = on_event c.phase e c

  unfoldable pub client_run : List Event → Client → Client
  unfolding client_step
  client_run [] c = c
  client_run (e ∷ es) c = client_run es (client_step e c)

-- ===== src/Client/Redis/Protocol.antt =====
-- What the redis client sends, in any schedule of its callbacks.
use capptpl.Base.{
  All-append, Bool, Bool-cases, Bytes, Lacks, List, [], ap, append-nil, append_assoc, arith, codes,
  false, if◌then◌else◌, inl, inr, length, length-append, ltb, refl, replicate, suc, sym, take,
  take-all, true, zero, ℕ, ◌++◌, ◌<◌, ◌∙◌, ◌∷◌, ◌≡◌, ◌≢◌, ◌⊎◌,
}
use capptpl.Base.Chars.{decimal}
use capptpl.Client.Redis.{
  Client, Event, Phase, Reply, auth_sent, auth_text, client_run, client_step, connected, connecting,
  error_reply, null_reply, on_event, on_redis_auth, on_redis_connect, on_redis_pop, pop_sent,
  pop_text, pop_time, pop_timer, reconnect, reconnect_timer, redis_connect, replied, send_command,
  silent, status_reply,
}

-- The text before the first request: the password, if there is one.
unfoldable pub opening : Bytes → List Bytes
opening passwd = if ltb 0 (length passwd) then auth_text passwd ∷ [] else []

-- What has been sent where the client waits for the phase.
abbrev Said : Bytes → Bytes → Phase → List Bytes → Type 0
Said passwd cmd connecting l = l ≡ []
Said passwd cmd reconnect_timer l = l ≡ []
Said passwd cmd pop_timer l = (l ≡ []) × (opening passwd ≡ [])
Said passwd cmd auth_sent l = l ≡ opening passwd
Said passwd cmd pop_sent l = (n : ℕ) × (l ≡ opening passwd ++ replicate n cmd)
Said passwd cmd silent l = (l ≡ []) ⊎ ((n : ℕ) × (l ≡ opening passwd ++ replicate n cmd))

record IsPolite (passwd cmd : Bytes) (c : Client) : Type 0 where
  same_passwd : c.redis_passwd ≡ passwd
  same_cmd : c.redis_cmd ≡ cmd
  said : Said passwd cmd c.phase c.sent

replicate-snoc : (n : ℕ) (b : Bytes) → replicate n b ++ b ∷ [] ≡ replicate (suc n) b
replicate-snoc zero b = refl
replicate-snoc (suc n) b = ap (λ l. b ∷ l) (replicate-snoc n b)

opening_some : (p : Bytes) → ltb 0 (length p) ≡ true → opening p ≡ auth_text p ∷ []
unfolding opening
opening_some p h = rw h

opening_none : (p : Bytes) → ltb 0 (length p) ≡ false → opening p ≡ []
unfolding opening
opening_none p h = rw h

-- One request more.
more_said :
    (passwd cmd : Bytes) (n : ℕ) (l : List Bytes)
    → l ≡ opening passwd ++ replicate n cmd
    → l ++ cmd ∷ [] ≡ opening passwd ++ replicate (suc n) cmd
more_said passwd cmd n l e =
    rw (e, append_assoc) (ap (λ t. opening passwd ++ t) (replicate-snoc n cmd))

module _ (format : Bytes → Bytes) (passwd cmd : Bytes)
    (whole_passwd : format (auth_text passwd) ≡ auth_text passwd)
    (whole_cmd : format cmd ≡ cmd) where
  send-IsPolite :
      (taken : Bool) (p : Phase) (text : Bytes) (c : Client)
      → c.redis_passwd ≡ passwd
      → c.redis_cmd ≡ cmd
      → Said passwd cmd silent c.sent
      → Said passwd cmd p (c.sent ++ format text ∷ [])
      → IsPolite passwd cmd (send_command format taken p text c)
  unfolding send_command
  send-IsPolite true p text c a b l m = record { same_passwd = a; same_cmd = b; said = m }
  send-IsPolite false p text c a b l m = record { same_passwd = a; same_cmd = b; said = l }

  -- A request that is sent when so many have been.
  request-IsPolite :
      (taken : Bool) (c : Client) (n : ℕ)
      → c.redis_passwd ≡ passwd
      → c.redis_cmd ≡ cmd
      → c.sent ≡ opening passwd ++ replicate n cmd
      → IsPolite passwd cmd (send_command format taken pop_sent c.redis_cmd c)
  request-IsPolite taken c n a b e =
      send-IsPolite taken pop_sent c.redis_cmd c a b (inr (n, e))
        (suc n, rw (b, whole_cmd) (more_said passwd cmd n c.sent e))

  connect-IsPolite :
      (ok taken : Bool) (c : Client)
      → c.redis_passwd ≡ passwd
      → c.redis_cmd ≡ cmd
      → c.sent ≡ []
      → IsPolite passwd cmd (on_redis_connect format ok taken c)
  unfolding on_redis_connect
  connect-IsPolite false taken c a b e = record { same_passwd = a; same_cmd = b; said = e }
  connect-IsPolite true taken c a b e = elim (Bool-cases (ltb 0 (length c.redis_passwd))) [
    | inl h ↦ rw h (
        send-IsPolite taken auth_sent (auth_text c.redis_passwd) (record c { redis_status = true })
          a b (inl e)
          (rw (e, a, whole_passwd)
            (sym (opening_some passwd (ap (λ p. ltb 0 (length p)) (sym a) ∙ h)))))
    | inr h ↦ rw h (record {
      same_passwd = a;
      same_cmd = b;
      said = (e, sym (ap opening a) ∙ opening_none c.redis_passwd h);
    })
  ]

  auth-IsPolite :
      (r : Reply) (taken : Bool) (c : Client)
      → c.redis_passwd ≡ passwd
      → c.redis_cmd ≡ cmd
      → c.sent ≡ opening passwd
      → IsPolite passwd cmd (on_redis_auth format r taken c)
  unfolding on_redis_auth
  auth-IsPolite status_reply taken c a b e =
      request-IsPolite taken c 0 a b (e ∙ sym (append-nil (opening passwd)))
  auth-IsPolite _ taken c a b e = record {
    same_passwd = a;
    same_cmd = b;
    said = inr (0, e ∙ sym (append-nil (opening passwd)));
  }

  pop-IsPolite :
      (r : Reply) (taken : Bool) (c : Client) (n : ℕ)
      → c.redis_passwd ≡ passwd
      → c.redis_cmd ≡ cmd
      → c.sent ≡ opening passwd ++ replicate n cmd
      → IsPolite passwd cmd (on_redis_pop format r taken c)
  unfolding on_redis_pop
  pop-IsPolite null_reply taken c n a b e = record {
    same_passwd = a;
    same_cmd = b;
    said = inr (n, e);
  }
  pop-IsPolite error_reply taken c n a b e = record {
    same_passwd = a;
    same_cmd = b;
    said = inr (n, e);
  }
  pop-IsPolite _ taken c n a b e = request-IsPolite taken c n a b e

  event-IsPolite :
      (p : Phase) (e : Event) (c : Client)
      → IsPolite passwd cmd c
      → Said passwd cmd p c.sent
      → IsPolite passwd cmd (on_event format p e c)
  unfolding on_event
  event-IsPolite connecting (connected ok taken) c h l =
      connect-IsPolite ok taken c h.same_passwd h.same_cmd l
  event-IsPolite reconnect_timer (reconnect true) c h l = record {
    same_passwd = h.same_passwd;
    same_cmd = h.same_cmd;
    said = l;
  }
  event-IsPolite reconnect_timer (reconnect false) c h l = record {
    same_passwd = h.same_passwd;
    same_cmd = h.same_cmd;
    said = inl l;
  }
  event-IsPolite pop_timer (pop_time taken) c h (l, o) =
      request-IsPolite taken c 0 h.same_passwd h.same_cmd (l ∙ rw o)
  event-IsPolite auth_sent (replied r taken) c h l =
      auth-IsPolite r taken c h.same_passwd h.same_cmd l
  event-IsPolite pop_sent (replied r taken) c h (n, l) =
      pop-IsPolite r taken c n h.same_passwd h.same_cmd l
  event-IsPolite _ _ c h l = h

  run-IsPolite :
      (es : List Event) (c : Client)
      → IsPolite passwd cmd c
      → IsPolite passwd cmd (client_run format es c)
  unfolding client_run client_step
  run-IsPolite [] c h = h
  run-IsPolite (e ∷ es) c h =
      run-IsPolite es (client_step format e c) (event-IsPolite c.phase e c h h.said)

-- In every phase nothing has been sent, or the opening and then so many requests.
so_far :
    (passwd cmd : Bytes) (p : Phase) (l : List Bytes)
    → Said passwd cmd p l
    → (l ≡ []) ⊎ ((n : ℕ) × (l ≡ opening passwd ++ replicate n cmd))
so_far passwd cmd connecting l h = inl h
so_far passwd cmd reconnect_timer l h = inl h
so_far passwd cmd pop_timer l h = inl h.0
so_far passwd cmd auth_sent l h = inr (0, h ∙ sym (append-nil (opening passwd)))
so_far passwd cmd pop_sent l h = inr h
so_far passwd cmd silent l h = h

-- The request is never cut for a list that the configuration can hold.
pop_text-whole :
    (list : Bytes) → length list < 64 → pop_text list ≡ codes "BRPOP " ++ list ++ codes " 10"
unfolding pop_text decimal
pop_text-whole list h =
    take-all 126 (codes "BRPOP " ++ list ++ codes " 10")
      (omega (arith, length-append {0} list (codes " 10")))

Lacks-take : (n : ℕ) (s : Bytes) → Lacks b'%' s → Lacks b'%' (take n s)
Lacks-take zero s h = tt
Lacks-take (suc n) [] h = tt
Lacks-take (suc n) (c ∷ s) (h, hs) = (h, Lacks-take n s hs)

-- In every schedule of the callbacks, with replies of any type, commands that are not taken and
-- connections that fail, for a list that fits the configuration, where neither the password nor the
-- list has a per cent sign and hiredis takes a format without one as it stands: what has been sent
-- is nothing; or first the password, if there is one, as far as `tmp` holds it, and then so many times
-- the whole request and nothing else.
pub client_run_sent :
    (format : Bytes → Bytes) (passwd list : Bytes) (es : List Event)
    → ((s : Bytes) → Lacks b'%' s → format s ≡ s)
    → Lacks b'%' passwd
    → Lacks b'%' list
    → length list < 64
    → ((client_run format es (redis_connect passwd list)).sent ≡ [])
      ⊎ ((n : ℕ) × ((client_run format es (redis_connect passwd list)).sent
            ≡ opening passwd ++ replicate n (codes "BRPOP " ++ list ++ codes " 10")))
unfolding redis_connect auth_text
client_run_sent format passwd list es plain p l h =
    let cmd = codes "BRPOP " ++ list ++ codes " 10" in
    let whole_passwd : format (auth_text passwd) ≡ auth_text passwd = plain (auth_text passwd) (
      Lacks-take 62 (codes "AUTH " ++ passwd)
        (omega arith, (omega arith, (omega arith, (omega arith, (omega arith, p)))))) in
    let whole_cmd : format cmd ≡ cmd = plain cmd (
      All-append (λ c. c ≢ b'%') (codes "BRPOP ") (list ++ codes " 10") (omega arith)
        (All-append (λ c. c ≢ b'%') list (codes " 10") l (omega arith))) in
    let end =
      run-IsPolite format passwd cmd whole_passwd whole_cmd es (redis_connect passwd list)
        (record { same_passwd = refl; same_cmd = pop_text-whole list h; said = refl }) in
    so_far passwd cmd _ _ end.said

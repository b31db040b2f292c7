-- ===== src/Client/Update.antt =====
-- The configuration of the second program against the settings that its file stands for.
use capptpl.Base.{
  All, Bytes, Lacks, List, [], ap, c_str, if◌then◌else◌, refl, some, take, ℕ, ◌∙◌, ◌∷◌, ◌≡◌,
}
use capptpl.Base.Chars.{atoi, to_u16}
use capptpl.Base.Chars.Buffer.{IsBuffer, strncpy_lem}
use capptpl.Client.{
  Call, ClientConfig, ClientItem, client_assign, client_calls, client_crt, client_ini_callback,
  client_item_of, client_key, client_port, client_result, client_ssl, client_unknown,
  client_version, client_zeroed, redis_host_item, redis_list_item, redis_passwd_item,
  redis_port_item,
}
use capptpl.Config.{is_enabled}

-- What a configuration says.
pub record ClientSettings : Type 0 where
  pub version : Bytes
  pub http_port : ℕ
  pub enable_ssl : ℕ
  pub crt_file : Bytes
  pub key_file : Bytes
  pub redis_host : Bytes
  pub redis_port : ℕ
  pub redis_passwd : Bytes
  pub redis_list : Bytes

unfoldable pub settings_of : ClientConfig → ClientSettings
settings_of c = record {
  version = c_str c.version;
  http_port = c.http_port;
  enable_ssl = c.enable_ssl;
  crt_file = c_str c.crt_file;
  key_file = c_str c.key_file;
  redis_host = c_str c.redis_host;
  redis_port = c.redis_port;
  redis_passwd = c_str c.redis_passwd;
  redis_list = c_str c.redis_list;
}

-- One item takes the value: a text up to the size of its field.
pub client_update : ClientItem → Bytes → ClientSettings → ClientSettings
client_update client_version v s = record s { version = take 7 v }
client_update client_port v s = record s { http_port = to_u16 (atoi v) }
client_update client_ssl v s = record s { enable_ssl = if is_enabled v then 1 else 0 }
client_update client_crt v s = record s { crt_file = take 127 v }
client_update client_key v s = record s { key_file = take 127 v }
client_update redis_host_item v s = record s { redis_host = take 45 v }
client_update redis_port_item v s = record s { redis_port = to_u16 (atoi v) }
client_update redis_passwd_item v s = record s { redis_passwd = take 63 v }
client_update redis_list_item v s = record s { redis_list = take 63 v }
client_update client_unknown v s = s

-- The lines of a file, one after the other: the last one that names an item decides.
pub updates : List Call → ClientSettings → ClientSettings
updates [] s = s
updates (l ∷ ls) s = updates ls (client_update (client_item_of l.section l.name) l.value s)

-- Every text is NUL-terminated within its field.
pub record IsSound (c : ClientConfig) : Type 0 where
  pub version_ends : IsBuffer 7 c.version
  pub crt_file_ends : IsBuffer 127 c.crt_file
  pub key_file_ends : IsBuffer 127 c.key_file
  pub host_ends : IsBuffer 45 c.redis_host
  pub passwd_ends : IsBuffer 63 c.redis_passwd
  pub list_ends : IsBuffer 63 c.redis_list

pub client_zeroed-IsSound : IsSound client_zeroed
unfolding client_zeroed
client_zeroed-IsSound = record {
  version_ends = refl;
  crt_file_ends = refl;
  key_file_ends = refl;
  host_ends = refl;
  passwd_ends = refl;
  list_ends = refl;
}

-- What an assignment promises.
abbrev Assigns : ClientItem → Bytes → ClientConfig → Type 0
Assigns i v c =
    (c' : ClientConfig) × (client_assign i v c ≡ some c')
    × IsSound c'
    × (settings_of c' ≡ client_update i v (settings_of c))

assign_lem : (i : ClientItem) (v : Bytes) (c : ClientConfig) → IsSound c → Lacks 0 v → Assigns i v c
unfolding client_assign settings_of client_update
assign_lem client_version v c h l =
    let (b, e, k, t) = strncpy_lem 7 v c.version h.version_ends in
    (
      record c { version = b },
      rw e,
      assumption,
      ap (λ x. record (settings_of c) { version = x }) (t l),
    )
assign_lem client_port v c h l = (record c { http_port = to_u16 (atoi v) }, refl, assumption, refl)
assign_lem client_ssl v c h l =
    (record c { enable_ssl = if is_enabled v then 1 else 0 }, refl, assumption, refl)
assign_lem client_crt v c h l =
    let (b, e, k, t) = strncpy_lem 127 v c.crt_file h.crt_file_ends in
    (
      record c { crt_file = b },
      rw e,
      assumption,
      ap (λ x. record (settings_of c) { crt_file = x }) (t l),
    )
assign_lem client_key v c h l =
    let (b, e, k, t) = strncpy_lem 127 v c.key_file h.key_file_ends in
    (
      record c { key_file = b },
      rw e,
      assumption,
      ap (λ x. record (settings_of c) { key_file = x }) (t l),
    )
assign_lem redis_host_item v c h l =
    let (b, e, k, t) = strncpy_lem 45 v c.redis_host h.host_ends in
    (
      record c { redis_host = b },
      rw e,
      assumption,
      ap (λ x. record (settings_of c) { redis_host = x }) (t l),
    )
assign_lem redis_port_item v c h l =
    (record c { redis_port = to_u16 (atoi v) }, refl, assumption, refl)
assign_lem redis_passwd_item v c h l =
    let (b, e, k, t) = strncpy_lem 63 v c.redis_passwd h.passwd_ends in
    (
      record c { redis_passwd = b },
      rw e,
      assumption,
      ap (λ x. record (settings_of c) { redis_passwd = x }) (t l),
    )
assign_lem redis_list_item v c h l =
    let (b, e, k, t) = strncpy_lem 63 v c.redis_list h.list_ends in
    (
      record c { redis_list = b },
      rw e,
      assumption,
      ap (λ x. record (settings_of c) { redis_list = x }) (t l),
    )
assign_lem client_unknown v c h l = (c, refl, h, refl)

callback_lem :
    (l : Call) (c : ClientConfig)
    → IsSound c
    → Lacks 0 l.value
    → (c' : ClientConfig) × (client_ini_callback c l.section l.name l.value
        ≡ some (c', client_result (client_item_of l.section l.name)))
      × IsSound c'
      × (settings_of c' ≡ client_update (client_item_of l.section l.name) l.value (settings_of c))
unfolding client_ini_callback
callback_lem l c h z =
    let (c', e, k, v) = assign_lem (client_item_of l.section l.name) l.value c h z in
    (c', rw e, k, v)

-- However many lines a file has, and whatever their values: the calls for them never write past a
-- field, every text stays NUL-terminated within its field, and the configuration then says what
-- the lines say one after the other, each value cut to the size of its field, where lines with
-- another section or name change nothing.
pub client_calls-updates :
    (ls : List Call) (c : ClientConfig)
    → IsSound c
    → All (λ l. Lacks 0 l.value) ls
    → (c' : ClientConfig) × (client_calls ls c ≡ some c')
      × IsSound c'
      × (settings_of c' ≡ updates ls (settings_of c))
unfolding client_calls updates
client_calls-updates [] c h z = (c, refl, h, refl)
client_calls-updates (l ∷ ls) c h (z, zs) =
    let (c', e, k, v) = callback_lem l c h z in
    let (d, e', k', v') = client_calls-updates ls c' k zs in
    (d, rw (e, client_calls) e', k', v' ∙ ap (updates ls) v)

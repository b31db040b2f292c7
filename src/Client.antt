-- ===== src/Client.antt =====
-- apptpl2/apptpl2_init.h and apptpl2/apptpl2_init.c: the configuration of the second program, which
-- reads messages from a redis server. `ini_callback` is `client_ini_callback` here.
pub mod Report
pub mod Http
pub mod Redis
pub mod Update
use mathlib.Core.Option
use capptpl.Base.{
  Bytes, List, Option, [], codes, if◌then◌else◌, map, none, replicate, some, ℕ, ◌-◌, ◌∷◌,
}
use capptpl.Base.Chars.{atoi, strncpy, to_u16}
use capptpl.Config.{is_enabled, matches}

-- `struct config`
pub record ClientConfig : Type 0 where
  pub version : Bytes
  pub http_port : ℕ
  pub enable_ssl : ℕ
  pub crt_file : Bytes
  pub key_file : Bytes
  pub redis_host : Bytes
  pub redis_port : ℕ
  pub redis_passwd : Bytes
  pub redis_list : Bytes

-- The conditions of `ini_callback` in their order.
pub data ClientItem : Type 0 where
  client_version client_port client_ssl client_crt client_key : ClientItem
  redis_host_item redis_port_item redis_passwd_item redis_list_item client_unknown : ClientItem

unfoldable pub client_item_of : Bytes → Bytes → ClientItem
unfolding matches
client_item_of section name =
    let match = matches section name in
    if match (codes "global") (codes "version")
    then client_version
    else if match (codes "http") (codes "port")
    then client_port
    else if match (codes "http") (codes "enable_ssl")
    then client_ssl
    else if match (codes "http") (codes "crt_file")
    then client_crt
    else if match (codes "http") (codes "key_file")
    then client_key
    else if match (codes "redis") (codes "host")
    then redis_host_item
    else if match (codes "redis") (codes "port")
    then redis_port_item
    else if match (codes "redis") (codes "passwd")
    then redis_passwd_item
    else if match (codes "redis") (codes "list")
    then redis_list_item
    else client_unknown

-- The assignment of an item. `none` is a write past the end of a field.
unfoldable pub client_assign : ClientItem → Bytes → ClientConfig → Option ClientConfig
unfolding strncpy atoi to_u16 is_enabled
client_assign client_version value c =
    Option.map (λ b. record c { version = b }) (strncpy (8 - 1) value c.version)
client_assign client_port value c = some (record c { http_port = to_u16 (atoi value) })
client_assign client_ssl value c =
    some (record c { enable_ssl = if is_enabled value then 1 else 0 })
client_assign client_crt value c =
    Option.map (λ b. record c { crt_file = b }) (strncpy (128 - 1) value c.crt_file)
client_assign client_key value c =
    Option.map (λ b. record c { key_file = b }) (strncpy (128 - 1) value c.key_file)
client_assign redis_host_item value c =
    Option.map (λ b. record c { redis_host = b }) (strncpy (46 - 1) value c.redis_host)
client_assign redis_port_item value c = some (record c { redis_port = to_u16 (atoi value) })
client_assign redis_passwd_item value c =
    Option.map (λ b. record c { redis_passwd = b }) (strncpy (64 - 1) value c.redis_passwd)
client_assign redis_list_item value c =
    Option.map (λ b. record c { redis_list = b }) (strncpy (64 - 1) value c.redis_list)
client_assign client_unknown value c = some c

-- 0 for an item that is not known, and 1 otherwise.
abbrev pub client_result : ClientItem → ℕ
client_result client_unknown = 0
client_result _ = 1

-- The configuration after the call, and the result.
unfoldable pub client_ini_callback :
    ClientConfig → Bytes → Bytes → Bytes → Option (ClientConfig × ℕ)
unfolding client_item_of client_assign
client_ini_callback c section name value =
    Option.map (λ c'. (c', client_result (client_item_of section name)))
      (client_assign (client_item_of section name) value c)

-- A line of the file, as the reader of ini files calls back.
pub record Call : Type 0 where
  pub section : Bytes
  pub name : Bytes
  pub value : Bytes

-- `memset` of `main`.
unfoldable pub client_zeroed : ClientConfig
client_zeroed = record {
  version = replicate 8 0;
  http_port = 0;
  enable_ssl = 0;
  crt_file = replicate 128 0;
  key_file = replicate 128 0;
  redis_host = replicate 46 0;
  redis_port = 0;
  redis_passwd = replicate 64 0;
  redis_list = replicate 64 0;
}

-- The calls for the lines of a file, one after the other.
unfoldable pub client_calls : List Call → ClientConfig → Option ClientConfig
unfolding client_ini_callback
client_calls [] c = some c
client_calls (l ∷ ls) c = elim (client_ini_callback c l.section l.name l.value) [
  | none ↦ none
  | some r ↦ client_calls ls r.0
]

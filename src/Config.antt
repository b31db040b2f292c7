-- ===== src/Config.antt =====
-- apptpl/myconfig.h and apptpl/myconfig.c: `struct config`, `ini_callback`, the validation of
-- `load_config`, and `config2json`. A `char[n]` field is the list of its n bytes; a write past
-- the end of one is the fault `none`.
pub mod Update
pub mod Json
use mathlib.Core.Option
use capptpl.Base.{
  Bool, Bytes, Option, codes, if◌then◌else◌, leb, ltb, map, replicate, some, str_eq, ℕ, ◌&&◌, ◌-◌,
  ◌||◌,
}
use capptpl.Base.Chars.{atoi, str_case_eq, strncpy, to_u16}
use capptpl.Base.Int.{pos, pos_part, ℤ}

pub record Config : Type 0 where
  pub version : Bytes
  pub http_port : ℕ
  pub enable_ssl : ℕ
  pub crt_file : Bytes
  pub key_file : Bytes
  pub zmq_port : ℕ
  pub pcap_device : Bytes
  pub pcap_snaplen : ℤ
  pub pcap_buffer_size : ℤ
  pub pcap_filter : Bytes
  pub parser_thread_num : ℤ
  pub word_file : Bytes
  pub regex_file : Bytes

abbrev pub parser_thread_default : ℤ
parser_thread_default = pos 4

abbrev pub parser_thread_max : ℕ
parser_thread_max = 256

-- `memset(myconfig, 0, sizeof(struct config))`
unfoldable pub zeroed : Config
zeroed = record {
  version = replicate 8 0;
  http_port = 0;
  enable_ssl = 0;
  crt_file = replicate 128 0;
  key_file = replicate 128 0;
  zmq_port = 0;
  pcap_device = replicate 128 0;
  pcap_snaplen = pos 0;
  pcap_buffer_size = pos 0;
  pcap_filter = replicate 256 0;
  parser_thread_num = pos 0;
  word_file = replicate 256 0;
  regex_file = replicate 256 0;
}

-- The conditions of `ini_callback` in their order: the item that a section and a name stand for.
pub data Item : Type 0 where
  version_item http_port_item enable_ssl_item crt_file_item key_file_item : Item
  zmq_port_item device_item snaplen_item buffer_size_item filter_item : Item
  thread_num_item word_file_item regex_file_item unknown_item : Item

unfoldable pub matches : Bytes → Bytes → Bytes → Bytes → Bool
unfolding str_eq
matches section name s n = str_eq section s && str_eq name n

unfoldable pub item_of : Bytes → Bytes → Item
unfolding matches
item_of section name =
    let match = matches section name in
    if match (codes "global") (codes "version")
    then version_item
    else if match (codes "http") (codes "port")
    then http_port_item
    else if match (codes "http") (codes "enable_ssl")
    then enable_ssl_item
    else if match (codes "http") (codes "crt_file")
    then crt_file_item
    else if match (codes "http") (codes "key_file")
    then key_file_item
    else if match (codes "zmq") (codes "port")
    then zmq_port_item
    else if match (codes "pcap") (codes "device")
    then device_item
    else if match (codes "pcap") (codes "snaplen")
    then snaplen_item
    else if match (codes "pcap") (codes "buffer_size")
    then buffer_size_item
    else if match (codes "pcap") (codes "filter")
    then filter_item
    else if match (codes "parser") (codes "thread_num")
    then thread_num_item
    else if match (codes "word_policy") (codes "word_file")
    then word_file_item
    else if match (codes "regex_policy") (codes "regex_file")
    then regex_file_item
    else unknown_item

unfoldable pub is_enabled : Bytes → Bool
unfolding str_eq str_case_eq
is_enabled value = str_case_eq value (codes "true") || str_eq value (codes "1")

-- The assignment of an item. `none` is a write past the end of a field.
unfoldable pub assign : Item → Bytes → Config → Option Config
unfolding strncpy atoi to_u16 is_enabled
assign version_item value c =
    Option.map (λ b. record c { version = b }) (strncpy (8 - 1) value c.version)
assign http_port_item value c = some (record c { http_port = to_u16 (atoi value) })
assign enable_ssl_item value c = some (record c { enable_ssl = if is_enabled value then 1 else 0 })
assign crt_file_item value c =
    Option.map (λ b. record c { crt_file = b }) (strncpy (128 - 1) value c.crt_file)
assign key_file_item value c =
    Option.map (λ b. record c { key_file = b }) (strncpy (128 - 1) value c.key_file)
assign zmq_port_item value c = some (record c { zmq_port = to_u16 (atoi value) })
assign device_item value c =
    Option.map (λ b. record c { pcap_device = b }) (strncpy (128 - 1) value c.pcap_device)
assign snaplen_item value c = some (record c { pcap_snaplen = atoi value })
assign buffer_size_item value c = some (record c { pcap_buffer_size = atoi value })
assign filter_item value c =
    Option.map (λ b. record c { pcap_filter = b }) (strncpy (256 - 1) value c.pcap_filter)
assign thread_num_item value c = some (record c { parser_thread_num = atoi value })
assign word_file_item value c =
    Option.map (λ b. record c { word_file = b }) (strncpy (256 - 1) value c.word_file)
assign regex_file_item value c =
    Option.map (λ b. record c { regex_file = b }) (strncpy (256 - 1) value c.regex_file)
assign unknown_item value c = some c

-- 0 for an item that is not known, and 1 otherwise.
abbrev pub result_of : Item → ℕ
result_of unknown_item = 0
result_of _ = 1

-- The configuration after the call, and the result.
unfoldable pub ini_callback : Config → Bytes → Bytes → Bytes → Option (Config × ℕ)
unfolding item_of assign
ini_callback c section name value =
    Option.map (λ c'. (c', result_of (item_of section name)))
      (assign (item_of section name) value c)

-- The end of `load_config` and of `test_config`.
unfoldable pub validate : Config → Config
validate c =
    if leb (pos_part c.parser_thread_num) 0 || ltb parser_thread_max (pos_part c.parser_thread_num)
    then record c { parser_thread_num = parser_thread_default }
    else c

-- ===== src/Config/Update.antt =====
-- `ini_callback` against the settings that a configuration stands for.
use capptpl.Base.{
  Bytes, Lacks, ap, arith, c_str, if◌then◌else◌, refl, some, take, ℕ, ◌<◌, ◌^◌, ◌↔◌, ◌≡◌, ◌≤◌,
}
use capptpl.Base.Chars.{IsInt, atoi, atoi-IsInt, to_u16, to_u16-lt}
use capptpl.Base.Chars.Buffer.{IsBuffer, strncpy_lem}
use capptpl.Base.Int.{ℤ}
use capptpl.Config.{
  Config, Item, assign, buffer_size_item, crt_file_item, device_item, enable_ssl_item, filter_item,
  http_port_item, ini_callback, is_enabled, item_of, key_file_item, regex_file_item, result_of,
  snaplen_item, thread_num_item, unknown_item, version_item, word_file_item, zeroed, zmq_port_item,
}

-- What a configuration says: its fields as C strings and numbers.
pub record Settings : Type 0 where
  pub version : Bytes
  pub http_port : ℕ
  pub enable_ssl : ℕ
  pub crt_file : Bytes
  pub key_file : Bytes
  pub zmq_port : ℕ
  pub pcap_device : Bytes
  pub pcap_snaplen : ℤ
  pub pcap_buffer_size : ℤ
  pub pcap_filter : Bytes
  pub parser_thread_num : ℤ
  pub word_file : Bytes
  pub regex_file : Bytes

unfoldable pub view : Config → Settings
view c = record {
  version = c_str c.version;
  http_port = c.http_port;
  enable_ssl = c.enable_ssl;
  crt_file = c_str c.crt_file;
  key_file = c_str c.key_file;
  zmq_port = c.zmq_port;
  pcap_device = c_str c.pcap_device;
  pcap_snaplen = c.pcap_snaplen;
  pcap_buffer_size = c.pcap_buffer_size;
  pcap_filter = c_str c.pcap_filter;
  parser_thread_num = c.parser_thread_num;
  word_file = c_str c.word_file;
  regex_file = c_str c.regex_file;
}

-- One item of the file, and nothing else, takes the value: a text up to the size of its field.
pub update : Item → Bytes → Settings → Settings
update version_item v s = record s { version = take 7 v }
update http_port_item v s = record s { http_port = to_u16 (atoi v) }
update enable_ssl_item v s = record s { enable_ssl = if is_enabled v then 1 else 0 }
update crt_file_item v s = record s { crt_file = take 127 v }
update key_file_item v s = record s { key_file = take 127 v }
update zmq_port_item v s = record s { zmq_port = to_u16 (atoi v) }
update device_item v s = record s { pcap_device = take 127 v }
update snaplen_item v s = record s { pcap_snaplen = atoi v }
update buffer_size_item v s = record s { pcap_buffer_size = atoi v }
update filter_item v s = record s { pcap_filter = take 255 v }
update thread_num_item v s = record s { parser_thread_num = atoi v }
update word_file_item v s = record s { word_file = take 255 v }
update regex_file_item v s = record s { regex_file = take 255 v }
update unknown_item v s = s

-- Every text is NUL-terminated within its field, and every number is one of its C type.
pub record IsValid (c : Config) : Type 0 where
  pub version_ends : IsBuffer 7 c.version
  pub crt_file_ends : IsBuffer 127 c.crt_file
  pub key_file_ends : IsBuffer 127 c.key_file
  pub device_ends : IsBuffer 127 c.pcap_device
  pub filter_ends : IsBuffer 255 c.pcap_filter
  pub word_file_ends : IsBuffer 255 c.word_file
  pub regex_file_ends : IsBuffer 255 c.regex_file
  pub http_port_fits : c.http_port < 2 ^ 16
  pub zmq_port_fits : c.zmq_port < 2 ^ 16
  pub enable_ssl_fits : c.enable_ssl ≤ 1
  pub snaplen_fits : IsInt c.pcap_snaplen
  pub buffer_size_fits : IsInt c.pcap_buffer_size
  pub thread_num_fits : IsInt c.parser_thread_num

pub zeroed-IsValid : IsValid zeroed
unfolding zeroed
zeroed-IsValid = record {
  version_ends = refl;
  crt_file_ends = refl;
  key_file_ends = refl;
  device_ends = refl;
  filter_ends = refl;
  word_file_ends = refl;
  regex_file_ends = refl;
  http_port_fits = omega arith;
  zmq_port_fits = omega arith;
  enable_ssl_fits = omega arith;
  snaplen_fits = omega arith;
  buffer_size_fits = omega arith;
  thread_num_fits = omega arith;
}

is_enabled-le : (v : Bytes) → (if is_enabled v then 1 else 0) ≤ 1
is_enabled-le v = ground arith

-- What an assignment promises.
abbrev Assigns : Item → Bytes → Config → Type 0
Assigns i v c =
    (c' : Config) × (assign i v c ≡ some c') × IsValid c' × (view c' ≡ update i v (view c))

assign_lem : (i : Item) (v : Bytes) (c : Config) → IsValid c → Lacks 0 v → Assigns i v c
unfolding assign view update
assign_lem version_item v c h l =
    let (b, e, k, t) = strncpy_lem 7 v c.version h.version_ends in
    (record c { version = b }, rw e, assumption, ap (λ x. record (view c) { version = x }) (t l))
assign_lem http_port_item v c h l =
    (record c { http_port = to_u16 (atoi v) }, refl, assumption (to_u16-lt (atoi v)), refl)
assign_lem enable_ssl_item v c h l = (
  record c { enable_ssl = if is_enabled v then 1 else 0 },
  refl,
  assumption (is_enabled-le v),
  refl,
)
assign_lem crt_file_item v c h l =
    let (b, e, k, t) = strncpy_lem 127 v c.crt_file h.crt_file_ends in
    (record c { crt_file = b }, rw e, assumption, ap (λ x. record (view c) { crt_file = x }) (t l))
assign_lem key_file_item v c h l =
    let (b, e, k, t) = strncpy_lem 127 v c.key_file h.key_file_ends in
    (record c { key_file = b }, rw e, assumption, ap (λ x. record (view c) { key_file = x }) (t l))
assign_lem zmq_port_item v c h l =
    (record c { zmq_port = to_u16 (atoi v) }, refl, assumption (to_u16-lt (atoi v)), refl)
assign_lem device_item v c h l =
    let (b, e, k, t) = strncpy_lem 127 v c.pcap_device h.device_ends in
    (
      record c { pcap_device = b },
      rw e,
      assumption,
      ap (λ x. record (view c) { pcap_device = x }) (t l),
    )
assign_lem snaplen_item v c h l =
    (record c { pcap_snaplen = atoi v }, refl, assumption (atoi-IsInt v), refl)
assign_lem buffer_size_item v c h l =
    (record c { pcap_buffer_size = atoi v }, refl, assumption (atoi-IsInt v), refl)
assign_lem filter_item v c h l =
    let (b, e, k, t) = strncpy_lem 255 v c.pcap_filter h.filter_ends in
    (
      record c { pcap_filter = b },
      rw e,
      assumption,
      ap (λ x. record (view c) { pcap_filter = x }) (t l),
    )
assign_lem thread_num_item v c h l =
    (record c { parser_thread_num = atoi v }, refl, assumption (atoi-IsInt v), refl)
assign_lem word_file_item v c h l =
    let (b, e, k, t) = strncpy_lem 255 v c.word_file h.word_file_ends in
    (
      record c { word_file = b },
      rw e,
      assumption,
      ap (λ x. record (view c) { word_file = x }) (t l),
    )
assign_lem regex_file_item v c h l =
    let (b, e, k, t) = strncpy_lem 255 v c.regex_file h.regex_file_ends in
    (
      record c { regex_file = b },
      rw e,
      assumption,
      ap (λ x. record (view c) { regex_file = x }) (t l),
    )
assign_lem unknown_item v c h l = (c, refl, h, refl)

result_of_iff : (i : Item) → (result_of i ≡ 0) ↔ (i ≡ unknown_item)
result_of_iff i = (λ h. ground arith, λ h. rw h)

-- A call on a valid configuration never writes past a field, leaves a valid configuration, and
-- changes what the configuration says in the one item that the section and the name stand for,
-- which takes the value cut to the size of its field; it returns 0 exactly for other sections
-- and names, and then changes nothing.
pub ini_callback-update :
    (c : Config) (section name value : Bytes)
    → IsValid c
    → Lacks 0 value
    → (c' : Config) × (ini_callback c section name value
        ≡ some (c', result_of (item_of section name)))
      × IsValid c'
      × (view c' ≡ update (item_of section name) value (view c))
      × ((result_of (item_of section name) ≡ 0) ↔ (item_of section name ≡ unknown_item))
unfolding ini_callback
ini_callback-update c section name value h l =
    let (c', e, k, v) = assign_lem (item_of section name) value c h l in
    (c', rw e, k, v, result_of_iff (item_of section name))

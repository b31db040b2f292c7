-- ===== src/Config/Json/RoundTrip.antt =====
-- A reader of the whole text of `config2json` gets the settings back.
use capptpl.Base.{
  All, Bytes, List, Option, [], ap, append_assoc, arith, c_str, codes, false, if◌then◌else◌, length,
  none, refl, replicate, some, str_eq, suc, zero, ℕ, ◌++◌, ◌+◌, ◌<◌, ◌∙◌, ◌∷◌, ◌≡◌,
}
use capptpl.Base.Chars.{decimal_ℤ, is_digit}
use capptpl.Base.Int.{pos, pos_part}
use capptpl.Config.{Config}
use capptpl.Config.Json.{config2json, device_size, escape_device, is_special}
use capptpl.Config.Json.Device.{kept, kept-escape}
use capptpl.Config.Json.Escape.{buffer, escape}
use capptpl.Config.Json.Reader.{
  Kind, Value, number, number_kind, read_fields, read_fields-show_fields, show_fields, text,
  text_kind,
}
use capptpl.Config.Json.Report.{back, config2json_room, filled, front, kept_text}
use capptpl.Config.Update.{IsValid, Settings, view}

-- No byte that a quoted text would have to escape.
abbrev pub IsPlain : Bytes → Type 0
IsPlain s = All (λ b. is_special b ≡ false) s

pub escape-IsPlain : (s : Bytes) → IsPlain s → escape s ≡ s
unfolding escape
escape-IsPlain [] h = refl
escape-IsPlain (c ∷ s) (h, hs) = rw h (rw (escape-IsPlain s hs) refl)

-- The texts that `config2json` does not escape.
pub record HasPlainTexts (s : Settings) : Type 0 where
  pub version_plain : IsPlain s.version
  pub crt_file_plain : IsPlain s.crt_file
  pub key_file_plain : IsPlain s.key_file
  pub filter_plain : IsPlain s.pcap_filter
  pub word_file_plain : IsPlain s.word_file
  pub regex_file_plain : IsPlain s.regex_file

fields_of : Settings → List (Bytes × Value)
fields_of s =
    (codes "{\"version\": ", text s.version)
    ∷ (codes ", \"http_port\": ", number (pos s.http_port))
    ∷ (codes ", \"enable_ssl\": ", number (pos s.enable_ssl))
    ∷ (codes ", \"crt_file\": ", text s.crt_file)
    ∷ (codes ", \"key_file\": ", text s.key_file)
    ∷ (codes ", \"zmq_port\": ", number (pos s.zmq_port))
    ∷ (codes ", \"pcap_device\": ", text s.pcap_device)
    ∷ (codes ", \"pcap_snaplen\": ", number s.pcap_snaplen)
    ∷ (codes ", \"pcap_buffer_size\": ", number s.pcap_buffer_size)
    ∷ (codes ", \"pcap_filter\": ", text s.pcap_filter)
    ∷ (codes ", \"parser_thread_num\": ", number s.parser_thread_num)
    ∷ (codes ", \"word_file\": ", text s.word_file)
    ∷ (codes ", \"regex_file\": ", text s.regex_file)
    ∷ []

abbrev format : List (Bytes × Kind)
format =
    (codes "{\"version\": ", text_kind)
    ∷ (codes ", \"http_port\": ", number_kind)
    ∷ (codes ", \"enable_ssl\": ", number_kind)
    ∷ (codes ", \"crt_file\": ", text_kind)
    ∷ (codes ", \"key_file\": ", text_kind)
    ∷ (codes ", \"zmq_port\": ", number_kind)
    ∷ (codes ", \"pcap_device\": ", text_kind)
    ∷ (codes ", \"pcap_snaplen\": ", number_kind)
    ∷ (codes ", \"pcap_buffer_size\": ", number_kind)
    ∷ (codes ", \"pcap_filter\": ", text_kind)
    ∷ (codes ", \"parser_thread_num\": ", number_kind)
    ∷ (codes ", \"word_file\": ", text_kind)
    ∷ (codes ", \"regex_file\": ", text_kind)
    ∷ []

-- The settings with these values, in the order of the text.
settings_of : List Value → Option Settings
settings_of
      (text version
        ∷ number http_port
        ∷ number enable_ssl
        ∷ text crt_file
        ∷ text key_file
        ∷ number zmq_port
        ∷ text device
        ∷ number snaplen
        ∷ number buffer_size
        ∷ text filter
        ∷ number thread_num
        ∷ text word_file
        ∷ text regex_file
        ∷ []) =
    some (record {
      version = version;
      http_port = pos_part http_port;
      enable_ssl = pos_part enable_ssl;
      crt_file = crt_file;
      key_file = key_file;
      zmq_port = pos_part zmq_port;
      pcap_device = device;
      pcap_snaplen = snaplen;
      pcap_buffer_size = buffer_size;
      pcap_filter = filter;
      parser_thread_num = thread_num;
      word_file = word_file;
      regex_file = regex_file;
    })
settings_of _ = none

-- What follows the values is the closing brace.
settings_in : Option (List Value × Bytes) → Option Settings
unfolding settings_of
settings_in none = none
settings_in (some (vs, rest)) = if str_eq rest (codes "}") then settings_of vs else none

pub read_report : Bytes → Option Settings
unfolding settings_in
read_report t = settings_in (read_fields format t)

read_report-show_fields :
    (s : Settings) → read_report (show_fields (fields_of s) (codes "}")) ≡ some s
unfolding fields_of read_report is_digit settings_in settings_of str_eq
read_report-show_fields s =
    rw (read_fields-show_fields (fields_of s) (codes "}") (ground arith) refl) refl

shown :
    (c : Config)
    → HasPlainTexts (view c)
    → front c ++ (escape (c_str c.pcap_device) ++ b'"' ∷ back c)
      ≡ show_fields (fields_of (view c)) (codes "}")
unfolding front back fields_of view decimal_ℤ
shown c p =
    rw
      (
        escape-IsPlain _ p.version_plain,
        escape-IsPlain _ p.crt_file_plain,
        escape-IsPlain _ p.key_file_plain,
        escape-IsPlain _ p.filter_plain,
        escape-IsPlain _ p.word_file_plain,
        escape-IsPlain _ p.regex_file_plain,
      )
      (simp append_assoc)

-- Where the escaped device name is shorter than 160 bytes and no other text has a quote or a
-- backslash, `config2json` makes a text from which a reader of such texts gets back every setting:
-- all seven texts, the device's name unescaped, and all six numbers with their signs.
pub read_report-config2json :
    (c : Config)
    → IsValid c
    → length (escape (c_str c.pcap_device)) < device_size
    → HasPlainTexts (view c)
    → (t : Bytes) × (config2json c ≡ some t) × (read_report t ≡ some (view c))
unfolding kept_text
read_report-config2json c v h p = let (room, e, l) = filled c in go room e l
  where
    dev : Bytes
    dev = c_str c.pcap_device

    whole : kept device_size dev ≡ escape dev
    whole = kept-escape device_size dev h

    go :
        (room : ℕ)
        → escape_device dev 0 (replicate device_size 0) ≡ some (buffer (kept_text c) room)
        → length (kept_text c) + room ≡ device_size
        → (t : Bytes) × (config2json c ≡ some t) × (read_report t ≡ some (view c))
    go zero e l = absurd (omega (arith, ap length whole, h))
    go (suc room) e l = (
      front c ++ (kept_text c ++ b'"' ∷ back c),
      config2json_room c room v e,
      ap (λ d. read_report (front c ++ (d ++ b'"' ∷ back c))) whole
          ∙ ap read_report (shown c p)
          ∙ read_report-show_fields (view c),
    )

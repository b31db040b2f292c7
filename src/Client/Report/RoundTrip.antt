-- ===== src/Client/Report/RoundTrip.antt =====
-- A reader of the text of the second program's `config2json` gets back what it shows.
use capptpl.Base.{
  Bytes, List, Option, [], append_assoc, arith, codes, if◌then◌else◌, none, refl, some, str_eq, ◌∷◌,
  ◌≡◌,
}
use capptpl.Base.Chars.{decimal_ℤ, is_digit}
use capptpl.Base.Int.{pos, pos_part}
use capptpl.Client.{ClientConfig}
use capptpl.Client.Report.{client_config2json, client_report_parts}
use capptpl.Client.Update.{ClientSettings, IsSound, settings_of}
use capptpl.Config.Json.{concat_texts}
use capptpl.Config.Json.Reader.{
  Kind, Value, number, number_kind, read_fields, read_fields-show_fields, show_fields, text,
  text_kind,
}
use capptpl.Config.Json.Report.{read_text-IsBuffer}
use capptpl.Config.Json.RoundTrip.{IsPlain, escape-IsPlain}

-- The texts that are shown.
pub record HasPlainTexts (s : ClientSettings) : Type 0 where
  pub version_plain : IsPlain s.version
  pub crt_file_plain : IsPlain s.crt_file
  pub key_file_plain : IsPlain s.key_file
  pub host_plain : IsPlain s.redis_host
  pub list_plain : IsPlain s.redis_list

fields_of : ClientSettings → List (Bytes × Value)
fields_of s =
    (codes "{\"version\": ", text s.version)
    ∷ (codes ", \"http_port\": ", number (pos s.http_port))
    ∷ (codes ", \"enable_ssl\": ", number (pos s.enable_ssl))
    ∷ (codes ", \"crt_file\": ", text s.crt_file)
    ∷ (codes ", \"key_file\": ", text s.key_file)
    ∷ (codes ", \"redis_host\": ", text s.redis_host)
    ∷ (codes ", \"redis_port\": ", number (pos s.redis_port))
    ∷ (codes ", \"redis_list\": ", text s.redis_list)
    ∷ []

abbrev format : List (Bytes × Kind)
format =
    (codes "{\"version\": ", text_kind)
    ∷ (codes ", \"http_port\": ", number_kind)
    ∷ (codes ", \"enable_ssl\": ", number_kind)
    ∷ (codes ", \"crt_file\": ", text_kind)
    ∷ (codes ", \"key_file\": ", text_kind)
    ∷ (codes ", \"redis_host\": ", text_kind)
    ∷ (codes ", \"redis_port\": ", number_kind)
    ∷ (codes ", \"redis_list\": ", text_kind)
    ∷ []

-- The settings with these values; the password is not among them.
shown_settings : List Value → Option ClientSettings
shown_settings
      (text version
        ∷ number http_port
        ∷ number enable_ssl
        ∷ text crt_file
        ∷ text key_file
        ∷ text host
        ∷ number port
        ∷ text queue
        ∷ []) =
    some (record {
      version = version;
      http_port = pos_part http_port;
      enable_ssl = pos_part enable_ssl;
      crt_file = crt_file;
      key_file = key_file;
      redis_host = host;
      redis_port = pos_part port;
      redis_passwd = [];
      redis_list = queue;
    })
shown_settings _ = none

-- What follows the values is the closing brace.
settings_in : Option (List Value × Bytes) → Option ClientSettings
unfolding shown_settings
settings_in none = none
settings_in (some (vs, rest)) = if str_eq rest (codes "}") then shown_settings vs else none

pub read_client_report : Bytes → Option ClientSettings
unfolding settings_in
read_client_report t = settings_in (read_fields format t)

read_back :
    (s : ClientSettings)
    → read_client_report (show_fields (fields_of s) (codes "}"))
      ≡ some (record s { redis_passwd = [] })
unfolding fields_of read_client_report is_digit settings_in shown_settings str_eq
read_back s = rw (read_fields-show_fields (fields_of s) (codes "}") (ground arith) refl) refl

client_report_texts :
    (c : ClientConfig)
    → IsSound c
    → HasPlainTexts (settings_of c)
    → client_config2json c ≡ some (show_fields (fields_of (settings_of c)) (codes "}"))
unfolding client_config2json concat_texts client_report_parts fields_of settings_of decimal_ℤ
client_report_texts c v p = rw (read_text-IsBuffer 7 c.version v.version_ends) (
    rw (read_text-IsBuffer 127 c.crt_file v.crt_file_ends) (
      rw (read_text-IsBuffer 127 c.key_file v.key_file_ends) (
        rw (read_text-IsBuffer 45 c.redis_host v.host_ends) (
          rw (read_text-IsBuffer 63 c.redis_list v.list_ends) (
            rw
              (
                escape-IsPlain _ p.version_plain,
                escape-IsPlain _ p.crt_file_plain,
                escape-IsPlain _ p.key_file_plain,
                escape-IsPlain _ p.host_plain,
                escape-IsPlain _ p.list_plain,
              )
              (simp append_assoc))))))

-- Where no text of the second program's configuration but the password has a quote or a backslash,
-- its `config2json` makes a text from which a reader of such texts gets back every
-- setting but the password, which is not shown.
pub read_client_report-client_config2json :
    (c : ClientConfig)
    → IsSound c
    → HasPlainTexts (settings_of c)
    → (t : Bytes) × (client_config2json c ≡ some t)
      × (read_client_report t ≡ some (record (settings_of c) { redis_passwd = [] }))
read_client_report-client_config2json c v p = (
  show_fields (fields_of (settings_of c)) (codes "}"),
  client_report_texts c v p,
  read_back (settings_of c),
)

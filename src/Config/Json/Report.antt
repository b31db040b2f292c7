-- ===== src/Config/Json/Report.antt =====
-- When the texts that hold the device's name are made, and what they say.
use capptpl.Base.{
  Bytes, Lacks, List, Option, [], ap, append_assoc, arith, c_str, codes, false, length, none, refl,
  replicate, some, suc, zero, ℕ, ◌++◌, ◌+◌, ◌<◌, ◌↔◌, ◌∙◌, ◌∷◌, ◌≡◌, ◌≢◌,
}
use capptpl.Base.Chars.{decimal, decimal_ℤ}
use capptpl.Base.Chars.Buffer.{IsBuffer, drop_nil}
use capptpl.Config.{Config}
use capptpl.Config.Json.{
  concat_texts, config2json, device_size, escape_device, literal, read_text, report_parts,
}
use capptpl.Config.Json.Device.{escape_device_lem, kept, kept-escape}
use capptpl.Config.Json.Escape.{
  buffer, escape, read_quoted, read_quoted-escape, read_text-buffer, read_text_full,
}
use capptpl.Config.Update.{IsValid}

Lacks-c_str : (s : Bytes) → Lacks 0 (c_str s)
unfolding c_str
Lacks-c_str [] = tt
Lacks-c_str (c ∷ s) = ground (arith, Lacks-c_str s)

Lacks-kept : (room : ℕ) (s : Bytes) → Lacks 0 s → Lacks 0 (kept room s)
unfolding kept
Lacks-kept zero s h = tt
Lacks-kept (suc zero) s h = tt
Lacks-kept (suc (suc room)) [] h = tt
Lacks-kept (suc (suc room)) (c ∷ s) (h, hs) =
    ground (arith, Lacks-kept room s hs, Lacks-kept (suc room) s hs)

read_text_nul : (s : Bytes) → s ≡ 0 ∷ [] → read_text s ≡ some (c_str s)
unfolding read_text c_str
read_text_nul s h = rw h

pub read_text-IsBuffer : (n : ℕ) (buf : Bytes) → IsBuffer n buf → read_text buf ≡ some (c_str buf)
unfolding read_text c_str
read_text-IsBuffer zero buf h = read_text_nul buf h
read_text-IsBuffer (suc n) [] h = absurd (drop_nil (suc n) h)
read_text-IsBuffer (suc n) (b ∷ buf) h = ground (arith, read_text-IsBuffer n buf h)

-- What the loop of `config2json` leaves for a whole name.
pub filled :
    (c : Config)
    → (room : ℕ) × (escape_device (c_str c.pcap_device) 0 (replicate device_size 0)
        ≡ some (buffer (kept device_size (c_str c.pcap_device)) room))
      × (length (kept device_size (c_str c.pcap_device)) + room ≡ device_size)
filled c = escape_device_lem (c_str c.pcap_device) [] device_size refl

-- The device's part of the text.
unfoldable pub kept_text : (c : Config) → Bytes
kept_text c = kept device_size (c_str c.pcap_device)

Lacks-kept_text : (c : Config) → Lacks 0 (kept_text c)
unfolding kept_text
Lacks-kept_text c = Lacks-kept device_size (c_str c.pcap_device) (Lacks-c_str c.pcap_device)

-- The text before the device's name, and the one behind its closing quote.
unfoldable pub front : Config → Bytes
front c =
    codes "{\"version\": \""
    ++ c_str c.version
    ++ codes "\", \"http_port\": "
    ++ decimal c.http_port
    ++ codes ", \"enable_ssl\": "
    ++ decimal c.enable_ssl
    ++ codes ", \"crt_file\": \""
    ++ c_str c.crt_file
    ++ codes "\", \"key_file\": \""
    ++ c_str c.key_file
    ++ codes "\", \"zmq_port\": "
    ++ decimal c.zmq_port
    ++ codes ", \"pcap_device\": \""

unfoldable pub back : Config → Bytes
back c =
    codes ", \"pcap_snaplen\": "
    ++ decimal_ℤ c.pcap_snaplen
    ++ codes ", \"pcap_buffer_size\": "
    ++ decimal_ℤ c.pcap_buffer_size
    ++ codes ", \"pcap_filter\": \""
    ++ c_str c.pcap_filter
    ++ codes "\", \"parser_thread_num\": "
    ++ decimal_ℤ c.parser_thread_num
    ++ codes ", \"word_file\": \""
    ++ c_str c.word_file
    ++ codes "\", \"regex_file\": \""
    ++ c_str c.regex_file
    ++ codes "\"}"

-- The arguments, when every text ends within its field.
report_texts : Config → Option Bytes → List (Option Bytes)
report_texts c device =
    literal "{\"version\": \""
    ∷ some (c_str c.version)
    ∷ literal "\", \"http_port\": "
    ∷ some (decimal c.http_port)
    ∷ literal ", \"enable_ssl\": "
    ∷ some (decimal c.enable_ssl)
    ∷ literal ", \"crt_file\": \""
    ∷ some (c_str c.crt_file)
    ∷ literal "\", \"key_file\": \""
    ∷ some (c_str c.key_file)
    ∷ literal "\", \"zmq_port\": "
    ∷ some (decimal c.zmq_port)
    ∷ literal ", \"pcap_device\": \""
    ∷ device
    ∷ literal "\", \"pcap_snaplen\": "
    ∷ some (decimal_ℤ c.pcap_snaplen)
    ∷ literal ", \"pcap_buffer_size\": "
    ∷ some (decimal_ℤ c.pcap_buffer_size)
    ∷ literal ", \"pcap_filter\": \""
    ∷ some (c_str c.pcap_filter)
    ∷ literal "\", \"parser_thread_num\": "
    ∷ some (decimal_ℤ c.parser_thread_num)
    ∷ literal ", \"word_file\": \""
    ∷ some (c_str c.word_file)
    ∷ literal "\", \"regex_file\": \""
    ∷ some (c_str c.regex_file)
    ∷ literal "\"}"
    ∷ []

report_parts-IsValid :
    (c : Config) (device : Bytes)
    → IsValid c
    → report_parts c device ≡ report_texts c (read_text device)
unfolding report_parts report_texts
report_parts-IsValid c device v = rw (read_text-IsBuffer 7 c.version v.version_ends) (
    rw (read_text-IsBuffer 127 c.crt_file v.crt_file_ends) (
      rw (read_text-IsBuffer 127 c.key_file v.key_file_ends) (
        rw (read_text-IsBuffer 255 c.pcap_filter v.filter_ends) (
          rw (read_text-IsBuffer 255 c.word_file v.word_file_ends)
            (rw (read_text-IsBuffer 255 c.regex_file v.regex_file_ends))))))

concat-report_texts :
    (c : Config) (device : Bytes)
    → concat_texts (report_texts c (some device)) ≡ some (front c ++ (device ++ b'"' ∷ back c))
unfolding concat_texts report_texts front back
concat-report_texts c device = simp append_assoc

concat-report_texts-none : (c : Config) → concat_texts (report_texts c none) ≡ none
unfolding concat_texts report_texts
concat-report_texts-none c = refl

config2json_lem :
    (c : Config) (device : Bytes)
    → escape_device (c_str c.pcap_device) 0 (replicate device_size 0) ≡ some device
    → IsValid c
    → config2json c ≡ concat_texts (report_texts c (read_text device))
unfolding config2json
config2json_lem c device e v =
    rw (e, config2json) (ap concat_texts (report_parts-IsValid c device v))

config2json_full :
    (c : Config)
    → IsValid c
    → escape_device (c_str c.pcap_device) 0 (replicate device_size 0)
      ≡ some (buffer (kept_text c) 0)
    → config2json c ≡ none
config2json_full c v e =
    config2json_lem c _ e v
    ∙ ap (λ t. concat_texts (report_texts c t)) (read_text_full (kept_text c) (Lacks-kept_text c))
    ∙ concat-report_texts-none c

pub config2json_room :
    (c : Config) (room : ℕ)
    → IsValid c
    → escape_device (c_str c.pcap_device) 0 (replicate device_size 0)
      ≡ some (buffer (kept_text c) (suc room))
    → config2json c ≡ some (front c ++ (kept_text c ++ b'"' ∷ back c))
config2json_room c room v e =
    config2json_lem c _ e v
    ∙ ap (λ t. concat_texts (report_texts c t))
        (read_text-buffer (kept_text c) room (Lacks-kept_text c))
    ∙ concat-report_texts c (kept_text c)

-- On a valid configuration the escaping never writes past its buffer. The text is made exactly
-- if the part of the escaped device name that the loop keeps leaves a byte for the NUL;
-- otherwise `%s` reads past the end of the buffer.
pub config2json-eq-none_iff :
    (c : Config)
    → IsValid c
    → (escape_device (c_str c.pcap_device) 0 (replicate device_size 0) ≢ none)
      × ((config2json c ≡ none) ↔ (length (kept device_size (c_str c.pcap_device)) ≡ device_size))
unfolding kept_text
config2json-eq-none_iff c v = let (room, e, l) = filled c in go room e l
  where
    go :
        (room : ℕ)
        → escape_device (c_str c.pcap_device) 0 (replicate device_size 0)
          ≡ some (buffer (kept_text c) room)
        → length (kept_text c) + room ≡ device_size
        → (escape_device (c_str c.pcap_device) 0 (replicate device_size 0) ≢ none)
          × ((config2json c ≡ none) ↔ (length (kept_text c) ≡ device_size))
    go zero e l = (λ n. cc, (λ _. omega arith, λ _. config2json_full c v e))
    go (suc room) e l =
        let made = config2json_room c room v e in (λ n. cc, (λ n. cc, λ f. absurd (omega arith)))

-- If the escaped device name is shorter than 160 bytes, the text is made, and a reader of quoted
-- texts that starts behind `"pcap_device": "` reads the device's name, followed by the rest of
-- the text.
pub config2json_device :
    (c : Config)
    → IsValid c
    → length (escape (c_str c.pcap_device)) < device_size
    → (text : Bytes) × (config2json c ≡ some (front c ++ text))
      × (read_quoted false text ≡ some (c_str c.pcap_device, back c))
unfolding kept_text
config2json_device c v h = let (room, e, l) = filled c in go room e l
  where
    dev : Bytes
    dev = c_str c.pcap_device

    whole : kept device_size dev ≡ escape dev
    whole = kept-escape device_size dev h

    go :
        (room : ℕ)
        → escape_device dev 0 (replicate device_size 0) ≡ some (buffer (kept_text c) room)
        → length (kept_text c) + room ≡ device_size
        → (text : Bytes) × (config2json c ≡ some (front c ++ text))
          × (read_quoted false text ≡ some (dev, back c))
    go zero e l = absurd (omega (arith, ap length whole))
    go (suc room) e l = (
      kept_text c ++ b'"' ∷ back c,
      config2json_room c room v e,
      rw whole (read_quoted-escape dev (back c)),
    )

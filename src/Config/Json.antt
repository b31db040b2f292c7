-- ===== src/Config/Json.antt =====
-- apptpl/myconfig.c, `config2json`, and the loop of `capture_dump` in apptpl/capture.c, which also
-- escapes a device name into `char device[160]`. A write past the end of the buffer and a read
-- past the end of one are the fault `none`.
pub mod RoundTrip
pub mod Reader
pub mod Escape
pub mod Device
pub mod Report
use Prim.Native.String.{String}
use mathlib.Core.Option
use capptpl.Base.{
  Bool, Bytes, List, Option, [], c_str, codes, if◌then◌else◌, ltb, map, none, replicate, some, suc,
  zero, ℕ, ◌++◌, ◌+◌, ◌-◌, ◌==◌, ◌||◌, ◌∷◌,
}
use capptpl.Base.Chars.{decimal, decimal_ℤ}
use capptpl.Config.{Config}

abbrev pub device_size : ℕ
device_size = 160

-- `buf[j] = c`
unfoldable pub store : Bytes → ℕ → ℕ → Option Bytes
store [] j c = none
store (b ∷ buf) zero c = some (c ∷ buf)
store (b ∷ buf) (suc j) c = elim (store buf j c) [ none ↦ none | some r ↦ some (b ∷ r) ]

-- `%s` of a buffer: the bytes before its first NUL.
unfoldable pub read_text : Bytes → Option Bytes
read_text [] = none
read_text (c ∷ s) =
    let rest = read_text s in
    if c == 0 then some [] else elim rest [ none ↦ none | some r ↦ some (c ∷ r) ]

unfoldable pub is_special : ℕ → Bool
is_special c = c == b'\\' || c == b'"'

-- The body of both loops: the byte, behind a backslash if it is special. The result is `j` before
-- the loop's own increment, and the buffer.
unfoldable pub put_char : ℕ → ℕ → Bytes → Option (ℕ × Bytes)
unfolding store is_special
put_char c j buf =
    if is_special c
    then elim (store buf j b'\\') [
      | none ↦ none
      | some buf' ↦ Option.map (λ r. (j + 1, r)) (store buf' (j + 1) c)
    ]
    else Option.map (λ r. (j, r)) (store buf j c)

-- The loop of `config2json`, bounded by the position `j` in the buffer.
unfoldable pub escape_device : Bytes → ℕ → Bytes → Option Bytes
escape_device [] j buf = some buf
escape_device (c ∷ src) j buf =
    if ltb j (device_size - 1)
    then elim (put_char c j buf) [ none ↦ none | some (j', buf') ↦ escape_device src (j' + 1) buf' ]
    else some buf

-- The loop of `capture_dump`, bounded by the position `i` in the name.
unfoldable pub dump_device : Bytes → ℕ → ℕ → Bytes → Option Bytes
dump_device [] i j buf = some buf
dump_device (c ∷ src) i j buf =
    if ltb i (device_size - 1)
    then elim (put_char c j buf) [
      | none ↦ none
      | some (j', buf') ↦ dump_device src (i + 1) (j' + 1) buf'
    ]
    else some buf

-- The parts of the text, in their order; a part is a literal or an argument.
unfoldable pub concat_texts : List (Option Bytes) → Option Bytes
concat_texts [] = some []
concat_texts (none ∷ parts) = none
concat_texts (some t ∷ parts) = elim (concat_texts parts) [
  | none ↦ none
  | some rest ↦ some (t ++ rest)
]

abbrev pub literal : String → Option Bytes
literal s = some (codes s)

-- The arguments of `utstring_printf`, with the escaped device's buffer.
unfoldable pub report_parts : Config → Bytes → List (Option Bytes)
report_parts c device =
    literal "{\"version\": \""
    ∷ read_text c.version
    ∷ literal "\", \"http_port\": "
    ∷ some (decimal c.http_port)
    ∷ literal ", \"enable_ssl\": "
    ∷ some (decimal c.enable_ssl)
    ∷ literal ", \"crt_file\": \""
    ∷ read_text c.crt_file
    ∷ literal "\", \"key_file\": \""
    ∷ read_text c.key_file
    ∷ literal "\", \"zmq_port\": "
    ∷ some (decimal c.zmq_port)
    ∷ literal ", \"pcap_device\": \""
    ∷ read_text device
    ∷ literal "\", \"pcap_snaplen\": "
    ∷ some (decimal_ℤ c.pcap_snaplen)
    ∷ literal ", \"pcap_buffer_size\": "
    ∷ some (decimal_ℤ c.pcap_buffer_size)
    ∷ literal ", \"pcap_filter\": \""
    ∷ read_text c.pcap_filter
    ∷ literal "\", \"parser_thread_num\": "
    ∷ some (decimal_ℤ c.parser_thread_num)
    ∷ literal ", \"word_file\": \""
    ∷ read_text c.word_file
    ∷ literal "\", \"regex_file\": \""
    ∷ read_text c.regex_file
    ∷ literal "\"}"
    ∷ []

unfoldable pub config2json : Config → Option Bytes
unfolding concat_texts report_parts
config2json c = elim (escape_device (c_str c.pcap_device) 0 (replicate device_size 0)) [
  | none ↦ none
  | some device ↦ concat_texts (report_parts c device)
]

-- ===== src/Tests/Config.antt =====
-- The configuration at concrete inputs.
use capptpl.Base.{
  Bytes, [], arith, c_str, codes, false, length, none, refl, replicate, some, ◌++◌, ◌↔◌, ◌∷◌, ◌≡◌,
  ◌≢◌,
}
use capptpl.Base.Chars.{atoi, to_u16}
use capptpl.Base.Int.{negsuc}
use capptpl.Config.{Config, ini_callback, item_of, result_of, unknown_item, zeroed}
use capptpl.Config.Json.{config2json, device_size, escape_device, is_special}
use capptpl.Config.Json.Device.{kept}
use capptpl.Config.Json.Escape.{escape, read_quoted, read_quoted-escape}
use capptpl.Config.Json.Report.{back, config2json-eq-none_iff, config2json_device, front}
use capptpl.Config.Json.RoundTrip.{read_report, read_report-config2json}
use capptpl.Config.Update.{IsValid, ini_callback-update, update, view, zeroed-IsValid}

ini_callback-update_example :
    (c' : Config) × (ini_callback zeroed (codes "http") (codes "port") (codes "65537")
      ≡ some (c', result_of (item_of (codes "http") (codes "port"))))
    × IsValid c'
    × (view c' ≡ update (item_of (codes "http") (codes "port")) (codes "65537") (view zeroed))
    × ((result_of (item_of (codes "http") (codes "port")) ≡ 0)
        ↔ (item_of (codes "http") (codes "port") ≡ unknown_item))
ini_callback-update_example =
    ini_callback-update zeroed (codes "http") (codes "port") (codes "65537") zeroed-IsValid
      (omega arith)

port_wraps : to_u16 (atoi (codes " 65537x")) ≡ 1
unfolding to_u16 atoi
port_wraps = refl

negative_number : atoi (codes "-12") ≡ negsuc 11
unfolding atoi
negative_number = refl

config2json-eq-none_iff_example :
    (escape_device (c_str zeroed.pcap_device) 0 (replicate device_size 0) ≢ none)
    × ((config2json zeroed ≡ none)
        ↔ (length (kept device_size (c_str zeroed.pcap_device)) ≡ device_size))
config2json-eq-none_iff_example = config2json-eq-none_iff zeroed zeroed-IsValid

no_device : c_str zeroed.pcap_device ≡ []
unfolding zeroed c_str
no_device = refl

config2json_device_zeroed :
    (text : Bytes) × (config2json zeroed ≡ some (front zeroed ++ text))
    × (read_quoted false text ≡ some (c_str zeroed.pcap_device, back zeroed))
unfolding zeroed c_str escape
config2json_device_zeroed = config2json_device zeroed zeroed-IsValid (omega arith)

read_quoted-escape_quotes :
    read_quoted false (escape (codes "a\"b\\") ++ b'"' ∷ codes ",")
    ≡ some (codes "a\"b\\", codes ",")
read_quoted-escape_quotes = read_quoted-escape (codes "a\"b\\") (codes ",")

abbrev odd_device : Config
odd_device = record zeroed {
  version = codes "1.0" ++ replicate 5 0;
  pcap_device = codes "\\Device\"1" ++ replicate 119 0;
  pcap_snaplen = negsuc 1500;
}

odd_device-IsValid : IsValid odd_device
unfolding zeroed
odd_device-IsValid = record {
  version_ends = refl;
  crt_file_ends = zeroed-IsValid.crt_file_ends;
  key_file_ends = zeroed-IsValid.key_file_ends;
  device_ends = refl;
  filter_ends = zeroed-IsValid.filter_ends;
  word_file_ends = zeroed-IsValid.word_file_ends;
  regex_file_ends = zeroed-IsValid.regex_file_ends;
  http_port_fits = omega arith;
  zmq_port_fits = omega arith;
  enable_ssl_fits = omega arith;
  snaplen_fits = omega arith;
  buffer_size_fits = omega arith;
  thread_num_fits = omega arith;
}

read_report-config2json_example :
    (t : Bytes) × (config2json odd_device ≡ some t) × (read_report t ≡ some (view odd_device))
unfolding zeroed c_str escape is_special view
read_report-config2json_example =
    read_report-config2json odd_device odd_device-IsValid (omega arith) record {
      version_plain = (refl, (refl, (refl, tt)));
      crt_file_plain = tt;
      key_file_plain = tt;
      filter_plain = tt;
      word_file_plain = tt;
      regex_file_plain = tt;
    }

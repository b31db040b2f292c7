-- ===== src/Client/Report.antt =====
-- apptpl2/apptpl2_init.c, `config2json`: the configuration of the second program as a text. No text
-- is escaped. A read past the end of a field is the fault `none`.
pub mod RoundTrip
use capptpl.Base.{Bytes, List, Option, [], some, ◌∷◌}
use capptpl.Base.Chars.{decimal}
use capptpl.Client.{ClientConfig}
use capptpl.Config.Json.{concat_texts, literal, read_text}

unfoldable pub client_report_parts : ClientConfig → List (Option Bytes)
client_report_parts c =
    literal "{\"version\": \""
    ∷ read_text c.version
    ∷ literal "\", \"http_port\": "
    ∷ some (decimal c.http_port)
    ∷ literal ", \"enable_ssl\": "
    ∷ some (decimal c.enable_ssl)
    ∷ literal ", \"crt_file\": \""
    ∷ read_text c.crt_file
    ∷ literal "\", \"key_file\": \""
    ∷ read_text c.key_file
    ∷ literal "\", \"redis_host\": \""
    ∷ read_text c.redis_host
    ∷ literal "\", \"redis_port\": "
    ∷ some (decimal c.redis_port)
    ∷ literal ", \"redis_list\": \""
    ∷ read_text c.redis_list
    ∷ literal "\"}"
    ∷ []

unfoldable pub client_config2json : ClientConfig → Option Bytes
unfolding concat_texts client_report_parts
client_config2json c = concat_texts (client_report_parts c)

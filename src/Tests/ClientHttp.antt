-- ===== src/Tests/ClientHttp.antt =====
-- The HTTP interface of the second program, and its report, at concrete inputs.
use mathlib.Core.Option
use capptpl.Base.{
  Bytes, List, [], c_str, codes, none, refl, replicate, some, str_eq, true, ◌++◌, ◌∷◌, ◌≡◌, ◌≢◌,
}
use capptpl.Client.{ClientConfig, client_zeroed}
use capptpl.Client.Http.{
  ClientLib, client_api_handler, client_page, client_path, client_route, client_route_init,
  client_routes, client_status_handler, client_uri,
}
use capptpl.Client.Http.Dispatch.{Serves, client_api_handler-Serves}
use capptpl.Client.Report.{client_config2json}
use capptpl.Client.Report.RoundTrip.{
  HasPlainTexts, read_client_report, read_client_report-client_config2json,
}
use capptpl.Client.Update.{IsSound, client_zeroed-IsSound, settings_of}
use capptpl.Config.Json.{is_special}
use capptpl.Http.{Reply, Resource, add_routes, find_route, get_method, json_text}

abbrev queue_config : ClientConfig
queue_config = record client_zeroed {
  redis_list = codes "queue1" ++ replicate 58 0;
  redis_passwd = codes "pw" ++ replicate 62 0;
}

queue_config-IsSound : IsSound queue_config
unfolding client_zeroed
queue_config-IsSound = record {
  version_ends = client_zeroed-IsSound.version_ends;
  crt_file_ends = client_zeroed-IsSound.crt_file_ends;
  key_file_ends = client_zeroed-IsSound.key_file_ends;
  host_ends = client_zeroed-IsSound.host_ends;
  passwd_ends = refl;
  list_ends = refl;
}

queue_config-HasPlainTexts : HasPlainTexts (settings_of queue_config)
unfolding settings_of client_zeroed c_str is_special
queue_config-HasPlainTexts = record {
  version_plain = tt;
  crt_file_plain = tt;
  key_file_plain = tt;
  host_plain = tt;
  list_plain = (refl, (refl, (refl, (refl, (refl, (refl, tt))))));
}

read_client_report-client_config2json_example :
    (t : Bytes) × (client_config2json queue_config ≡ some t)
    × (read_client_report t ≡ some (record (settings_of queue_config) { redis_passwd = [] }))
read_client_report-client_config2json_example =
    read_client_report-client_config2json queue_config queue_config-IsSound
      queue_config-HasPlainTexts

abbrev any_path : ClientLib
any_path = record {
  uri_parse = λ uri. some (some uri);
  uridecode = λ path. some path;
  status_text = some (codes "{}");
  method_number = λ m. 1;
  build_time = codes "today";
}

five_added : (client_route_init (replicate 5 true)).0 ≡ true
unfolding client_route_init add_routes
five_added = refl

-- One request for the status leaves its text.
status_leaks :
    Option.map
      (λ (r : List Reply × List Resource). r.1)
      (client_api_handler any_path client_routes get_method (codes "/status") queue_config [])
    ≡ some (json_text ∷ [])
unfolding client_api_handler client_uri client_path client_route client_page client_status_handler
    find_route str_eq
status_leaks = refl

queue_config_shown : client_config2json queue_config ≢ none
queue_config_shown e = cc (e, made.1)
  where
    made : (t : Bytes) × (client_config2json queue_config ≡ some t)
    made =
        let (t, e, r) =
          read_client_report-client_config2json queue_config queue_config-IsSound
            queue_config-HasPlainTexts in
        (t, e)

client_api_handler-Serves_example : Serves any_path get_method (codes "/status") (
    client_api_handler any_path
      (client_route_init (replicate 5 true)).1
      get_method
      (codes "/status")
      queue_config
      [])
client_api_handler-Serves_example =
    client_api_handler-Serves (replicate 5 true) any_path queue_config get_method (codes "/status")
      five_added queue_config_shown

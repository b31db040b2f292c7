-- ===== src/Tests/Program.antt =====
-- The start and the end of the program, of its HTTP server and of its policies at concrete answers.
use capptpl.Tests.Policy.{list_sets as sets}
use capptpl.Program.{Answers as MainAnswers, nothing_held as none_held}
use capptpl.Words.{Answers as WordAnswers}
use capptpl.Regex.Policy.{Answers as RegexAnswers}
use capptpl.Capture.{Answers as CaptureAnswers}
use capptpl.Server.{Answers as ServerAnswers}
use capptpl.Server.Outcome.{Ends as ServerEnds}
use capptpl.Parsers.{nothing_held as no_policies_held}
use capptpl.Parsers.Outcome.{Ends as ParsersEnds}
use capptpl.Base.{[], codes, false, replicate, some, true, ◌∷◌}
use capptpl.Base.Int.{pos}
use capptpl.Config.{Config}
use capptpl.Parsers.{parser_create}
use capptpl.Parsers.Outcome.{parser_create-Ends}
use capptpl.Program.Ending.{Ending}
use capptpl.Server.{magt_init}
use capptpl.Server.Outcome.{magt_init-Ends}

abbrev words_there : WordAnswers
words_there = record { copy_ok = true; slurp_ok = true; words = 12; create_ok = true }

abbrev two_lines : RegexAnswers
two_lines = record {
  copy_ok = true;
  loaded = some (codes "ab" ∷ codes "a" ∷ []);
  malloc_ok = true;
  opt_ok = true;
}

abbrev no_device : CaptureAnswers
no_device = record {
  create_ok = true;
  activate_ok = false;
  malloc_ok = true;
  compile_ok = true;
  setfilter_ok = true;
  datalink = 1;
}

abbrev with_ssl : ServerAnswers
with_ssl = record {
  base_ok = true;
  sigint_ok = true;
  sigterm_ok = true;
  timer_ok = true;
  httpd_ok = true;
  ssl = record {
    rand_ok = true;
    context_ok = true;
    chain_ok = true;
    key_ok = true;
    check_ok = true;
  };
  bind_ok = true;
  routes = replicate 6 true;
}

abbrev pub answers : MainAnswers
answers = record {
  server = with_ssl;
  inputer = record { context_ok = true; socket_ok = true; bind = λ t. true };
  words = words_there;
  regexes = two_lines;
  capture = no_device;
}

abbrev settings : Config
settings = record {
  version = codes "1.0";
  http_port = 8080;
  enable_ssl = 1;
  crt_file = codes "crt";
  key_file = codes "key";
  zmq_port = 8900;
  pcap_device = codes "eth0";
  pcap_snaplen = pos 2048;
  pcap_buffer_size = pos 16;
  pcap_filter = [];
  parser_thread_num = pos 4;
  word_file = codes "words";
  regex_file = codes "regex";
}

magt_init-Ends_example : ServerEnds with_ssl 1 (magt_init 1 with_ssl [])
magt_init-Ends_example = magt_init-Ends with_ssl 1

parser_create-Ends_example :
    ParsersEnds sets (parser_create sets words_there two_lines no_policies_held)
parser_create-Ends_example = parser_create-Ends sets words_there two_lines

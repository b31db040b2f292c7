-- ===== src/Tests/Start.antt =====
-- The start of the program at concrete arguments.
use capptpl.Tests.Policy.{list_sets as sets}
use capptpl.Tests.Program.{answers as all_answers}
use capptpl.Tests.Files.{
  template_only as template_disk, works as any_system, one_entry as one_setting,
  one_entry_strings as one_setting_strings,
}
use capptpl.Base.{
  Bytes, arith, codes, false, if◌then◌else◌, length, ltb, none, refl, some, str_eq, true, ◌++◌, ◌∷◌,
  ◌≡◌,
}
use capptpl.Base.Int.{negsuc, pos}
use capptpl.Files.Directory.{
  before_slash, ch_exec_cwd, ch_exec_cwd-directory, dirname, path_size, strip_slashes,
}
use capptpl.Program.Start.{Options, Surroundings, init_log, parsed}

abbrev program_file : Bytes
program_file = codes "/opt/apptpl/apptpl"

abbrev plain_options : Options
plain_options = record {
  version = false;
  list = false;
  test = false;
  debug = negsuc 3;
  config_filename = codes "a.ini";
  left = 0;
}

abbrev shell : Surroundings
shell = record {
  exe = some program_file;
  chdir = λ p. str_eq p (codes "/opt/apptpl");
  arguments = parsed plain_options;
  handler_ok = true;
}

no_level : init_log (negsuc 3) ≡ pos 2
unfolding init_log
no_level = refl

trailing_slash : dirname (codes "/opt//apptpl/") ≡ codes "/opt"
unfolding dirname strip_slashes before_slash
trailing_slash = refl

ch_exec_cwd-directory_example :
    ch_exec_cwd (some (codes "/opt/apptpl" ++ b'/' ∷ codes "apptpl")) (λ p. true) ≡ (
      if ltb (length (codes "/opt/apptpl" ++ b'/' ∷ codes "apptpl")) path_size
      then some true
      else none)
ch_exec_cwd-directory_example =
    ch_exec_cwd-directory (codes "/opt/apptpl") (codes "apptpl") (λ p. true) refl refl (omega arith)
      (omega arith) (omega arith)

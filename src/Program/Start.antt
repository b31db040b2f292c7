-- ===== src/Program/Start.antt =====
-- apptpl/main.c up to the call of `magt_init` and after the end, with `parse_args` of
-- apptpl/apptpl_init.c, `test_config` of apptpl/myconfig.c and `init_log` of lib/init_log.c.
-- The argparse library is a parameter: it ends the program itself, or says what it has read.
pub mod Cases
pub mod Outcome
use mathlib.Core.Option
use capptpl.Program.{Answers as MainAnswers, nothing_held as none_held}
use capptpl.Base.{
  Bool, Bytes, List, Option, [], c_str, false, if◌then◌else◌, map, none, some, true, zero, ℕ, ◌==◌,
  ◌||◌,
}
use capptpl.Base.Int.{ltb_ℤ, negsuc, pos, ℤ}
use capptpl.Config.{Config}
use capptpl.Config.Json.{config2json}
use capptpl.Files.{Disk, Entry, System, copy_file_from_tpl, load_config}
use capptpl.Files.Directory.{ch_exec_cwd}
use capptpl.Inputer.{inputer_open}
use capptpl.Parsers.{no_words}
use capptpl.Program.{Held, serve, zeroed_inputer}
use capptpl.Regex.Policy.{Cre2}
use capptpl.Server.{magt_init}
use capptpl.Words.{word_policy_create}

-- The variables that `parse_args` gives to argparse, and the number of arguments left.
pub record Options : Type 0 where
  pub version : Bool
  pub list : Bool
  pub test : Bool
  pub debug : ℤ
  pub config_filename : Bytes
  pub left : ℕ

pub data Arguments : Type 0 where
  exits : ℕ → Arguments
  parsed : Options → Arguments

-- What the system answers before the components are opened: the program's own file, the
-- directories that can be entered, the arguments, and whether the signal handler can be set.
pub record Surroundings : Type 0 where
  pub exe : Option Bytes
  pub chdir : Bytes → Bool
  pub arguments : Arguments
  pub handler_ok : Bool

-- The end of the process: its exit code, the level of the log if it has been set, the disk, and
-- what is still held.
pub record Exit : Type 0 where
  pub code : ℕ
  pub level : Option ℤ
  pub disk : Disk
  pub held : Held

-- The level that `init_log` sets. It returns 0 always; where a log cannot be opened it only says so.
unfoldable pub init_log : ℤ → ℤ
init_log debug = if ltb_ℤ debug (pos 0) || ltb_ℤ (pos 5) debug then pos 2 else debug

-- An exit before anything is opened.
unfoldable pub exit_early : ℕ → Option ℤ → Disk → Option Exit
exit_early code level disk =
    some (record { code = code; level = level; disk = disk; held = none_held })

-- The two files of the policies, copied from their templates one after the other.
unfoldable pub copy_words : System → Config → Disk → Bool × Disk
unfolding copy_file_from_tpl
copy_words sys c disk = copy_file_from_tpl sys (c_str c.word_file) disk

unfoldable pub copy_regexes : System → Config → Disk → Bool × Disk
unfolding copy_words copy_file_from_tpl
copy_regexes sys c disk = copy_file_from_tpl sys (c_str c.regex_file) (copy_words sys c disk).1

-- The answers of the policies' files are those of the disk.
unfoldable pub with_copies : System → Config → Disk → MainAnswers → MainAnswers
unfolding copy_words copy_regexes
with_copies sys c disk a = record a {
  words = record (a.words) { copy_ok = (copy_words sys c disk).0 };
  regexes = record (a.regexes) { copy_ok = (copy_regexes sys c disk).0 };
}

-- Whether `magt_init` and `inputer_open` succeed, so that `parser_create` is called.
unfoldable pub comes_to_parsers : Config → MainAnswers → Bool
unfolding magt_init inputer_open
comes_to_parsers c a = elim (magt_init c.enable_ssl a.server []) [
  | none ↦ false
  | some (none, l) ↦ false
  | some (some s, l) ↦ elim (inputer_open c.zmq_port a.inputer zeroed_inputer []) [
    | none ↦ false
    | some ((ok, i), l) ↦ ok
  ]
]

-- Whether `word_policy_create` succeeds, so that `re_policy_create` is called.
unfoldable pub makes_words : MainAnswers → Bool
unfolding word_policy_create
makes_words a = elim (word_policy_create a.words no_words []) [
  | none ↦ false
  | some ((ok, w), l) ↦ ok
]

-- The disk that `parser_create` leaves, if it is called.
unfoldable pub policies_disk : System → Config → MainAnswers → Disk → Disk
unfolding copy_words copy_regexes comes_to_parsers makes_words
policies_disk sys c a disk =
    if comes_to_parsers c a
    then if makes_words a then (copy_regexes sys c disk).1 else (copy_words sys c disk).1
    else disk

module _ (ini_parse : Bytes → List Entry) where
  -- Whether it returns 0, the text that is printed, and the disk.
  unfoldable pub test_config : System → Bytes → Disk → Option ((Bool × Bytes) × Disk)
  unfolding load_config config2json
  test_config sys filename disk = elim (load_config ini_parse sys filename disk) [
    | none ↦ none
    | some ((false, c), disk') ↦ some ((false, []), disk')
    | some ((true, c), disk') ↦ Option.map (λ text. ((true, text), disk')) (config2json c)
  ]

  -- The result 0, 1 or -1, and the disk. The result of `test_config` is not used.
  unfoldable pub parse_args : System → Options → Disk → Option (ℤ × Disk)
  unfolding test_config
  parse_args sys o disk =
      if o.version
      then some (pos 1, disk)
      else if o.list
      then some (pos 1, disk)
      else if o.test
      then Option.map (λ (r : (Bool × Bytes) × Disk). (pos 1, r.1))
          (test_config sys o.config_filename disk)
      else if o.left == 0
      then some (pos 0, disk)
      else some (negsuc 0, disk)

  module _ (lib : Cre2) where
    -- The exit code, after `magt_init` has been called.
    unfoldable pub finish : ℤ → Disk → Option (ℕ × Held) → Option Exit
    finish level disk none = none
    finish level disk (some (code, held)) =
        some (record { code = code; level = some level; disk = disk; held = held })

    -- From the result of `load_config` on; the configuration is logged first.
    unfoldable pub start_components :
        System → MainAnswers → ℤ → Option ((Bool × Config) × Disk) → Option Exit
    unfolding exit_early config2json serve finish with_copies policies_disk
    start_components sys a level none = none
    start_components sys a level (some ((false, c), disk)) = exit_early 1 (some level) disk
    start_components sys a level (some ((true, c), disk)) = elim (config2json c) [
      | none ↦ none
      | some text ↦
          let answers = with_copies sys c disk a in
          finish level (policies_disk sys c answers disk) (serve lib c answers none_held)
    ]

    -- From the result of `parse_args` on.
    unfoldable pub start_log :
        Surroundings → System → MainAnswers → Options → Option (ℤ × Disk) → Option Exit
    unfolding exit_early init_log start_components
    start_log env sys a o none = none
    start_log env sys a o (some (pos zero, disk)) =
        if env.handler_ok
        then start_components sys a (init_log o.debug)
            (load_config ini_parse sys o.config_filename disk)
        else exit_early 1 (some (init_log o.debug)) disk
    start_log env sys a o (some (_, disk)) = exit_early 1 none disk

    -- From the call of `parse_args` on.
    unfoldable pub start_arguments :
        Surroundings → System → MainAnswers → Arguments → Disk → Option Exit
    unfolding exit_early parse_args start_log
    start_arguments env sys a (exits code) disk = exit_early code none disk
    start_arguments env sys a (parsed o) disk = start_log env sys a o (parse_args sys o disk)

    unfoldable pub main : Surroundings → System → MainAnswers → Disk → Option Exit
    unfolding ch_exec_cwd exit_early start_arguments
    main env sys a disk = elim (ch_exec_cwd env.exe env.chdir) [
      | none ↦ none
      | some false ↦ exit_early 1 none disk
      | some true ↦ start_arguments env sys a env.arguments disk
    ]

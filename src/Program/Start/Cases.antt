-- ===== src/Program/Start/Cases.antt =====
-- How `main` (apptpl/main.c) may end, and what its arguments and its configuration may give.
use mathlib.Core.Option
use capptpl.Program.{Answers as MainAnswers}
use capptpl.Base.{
  Bool, Bool-cases, Bytes, List, Option, Option-cases, [], arith, c_str, false, if◌then◌else◌, inl,
  inr, length, none, refl, some, true, ℕ, ◌<◌, ◌==◌, ◌||◌, ◌∙◌, ◌≡◌, ◌≤◌, ◌⊎◌,
}
use capptpl.Base.Int.{neg_part, negsuc, pos, pos_part, ℤ}
use capptpl.Config.{Config}
use capptpl.Config.Json.{config2json, device_size}
use capptpl.Config.Json.Device.{kept}
use capptpl.Config.Json.Report.{config2json-eq-none_iff}
use capptpl.Config.Update.{IsValid}
use capptpl.Files.{Disk, Entry, System, can_read, copy_file_from_tpl, load_config}
use capptpl.Files.Directory.{ch_exec_cwd}
use capptpl.Files.Load.{AreStrings, load_config-Loads}
use capptpl.Program.{Held}
use capptpl.Program.Ending.{Ending}
use capptpl.Program.Start.{
  Exit, Options, Surroundings, exit_early, exits, finish, init_log, parse_args, parsed,
  policies_disk, test_config, with_copies,
}
use capptpl.Regex.Policy.{Cre2}

-- A level of the log, from TRACE to FATAL.
abbrev pub IsLevel : ℤ → Type 0
IsLevel x = (pos_part x ≤ 5) × (neg_part x ≡ 0)

pub init_log-IsLevel : (debug : ℤ) → IsLevel (init_log debug)
unfolding init_log
init_log-IsLevel (pos n) = ground arith
init_log-IsLevel (negsuc n) = ground arith

module _ (ini_parse : Bytes → List Entry) (lib : Cre2) (env : Surroundings) (sys : System)
    (disk : Disk) where
  -- The disk after `load_config` or `test_config`.
  abbrev pub copied : Options → Disk
  copied o = (copy_file_from_tpl sys o.config_filename disk).1

  -- Why the program ends before it opens a component.
  pub data Reason : ℕ → Type 0 where
    no_directory : ch_exec_cwd env.exe env.chdir ≡ some false → Reason 1
    argparse_ends : (k : ℕ) → env.arguments ≡ exits k → Reason k
    only_asked :
        (o : Options) → env.arguments ≡ parsed o → (o.version || o.list || o.test) ≡ true → Reason 1
    too_many : (o : Options) → env.arguments ≡ parsed o → 0 < o.left → Reason 1
    no_handler : env.handler_ok ≡ false → Reason 1
    no_config :
        (o : Options)
        → env.arguments ≡ parsed o
        → can_read sys (copied o) o.config_filename ≡ false
        → Reason 1

  -- The disk is as before, or has the configuration's copy from its template.
  abbrev pub Keeps : Disk → Type 0
  Keeps d = (d ≡ disk) ⊎ ((o : Options) × (env.arguments ≡ parsed o) × (d ≡ copied o))

  -- The configuration that the options name.
  pub record IsConfig (o : Options) (c : Config) : Type 0 where
    pub asked_for : env.arguments ≡ parsed o
    pub loaded : load_config ini_parse sys o.config_filename disk ≡ some ((true, c), copied o)
    pub valid : IsValid c

  pub data Ends (a : MainAnswers) (x : Option Exit) : Type 0 where
    stopped :
        (k : ℕ) (level : Option ℤ) (d : Disk)
        → Reason k
        → Keeps d
        → x ≡ exit_early k level d
        → Ends a x
    crashed :
        (o : Options) (c : Config)
        → IsConfig o c
        → length (kept device_size (c_str c.pcap_device)) ≡ device_size
        → x ≡ none
        → Ends a x
    served :
        (o : Options) (c : Config) (y : Option (ℕ × Held))
        → IsConfig o c
        → (o.version || o.list || o.test) ≡ false
        → o.left ≡ 0
        → IsLevel (init_log o.debug)
        → Ending lib c (with_copies sys c (copied o) a) y
        → x
          ≡ finish ini_parse lib
              (init_log o.debug)
              (policies_disk sys c (with_copies sys c (copied o) a) (copied o))
              y
        → Ends a x

  -- What `load_config` gives for the options.
  pub loaded_cases :
      ((text : Bytes) → AreStrings (ini_parse text))
      → (o : Options) → env.arguments ≡ parsed o
      → ((c : Config) × IsConfig o c)
        ⊎ ((can_read sys (copied o) o.config_filename ≡ false)
            × ((c : Config) × (load_config ini_parse sys o.config_filename disk
                  ≡ some ((false, c), copied o))))
  loaded_cases strings o e =
      let (c, f, v, _) = load_config-Loads ini_parse strings sys o.config_filename disk in
      elim (Bool-cases (can_read sys (copied o) o.config_filename)) [
        | inl r ↦ inl (c, record { asked_for = e; loaded = f ∙ rw r; valid = v })
        | inr r ↦ inr (r, (c, f ∙ rw r))
      ]

  -- `parse_args` with none of the three flags.
  pub plain_args :
      (o : Options)
      → (o.version || o.list || o.test) ≡ false
      → parse_args ini_parse sys o disk ≡ some (if o.left == 0 then pos 0 else negsuc 0, disk)
  unfolding parse_args
  plain_args o h = ground arith

  -- The configuration is one on which `config2json` reads past its buffer.
  abbrev pub Crashes : Options → Type 0
  Crashes o =
      (c : Config) × IsConfig o c × (length (kept device_size (c_str c.pcap_device)) ≡ device_size)

  test_config_shown :
      (o : Options) (c : Config)
      → IsConfig o c
      → ((r : (Bool × Bytes) × Disk) × (test_config ini_parse sys o.config_filename disk ≡ some r)
          × (r.1 ≡ copied o))
        ⊎ (Crashes o × (test_config ini_parse sys o.config_filename disk ≡ none))
  unfolding test_config
  test_config_shown o c k = elim (Option-cases (config2json c)) [
    | inl e ↦ inr (
      (c, k, (config2json-eq-none_iff c k.valid).1.0 e),
      rw (k.loaded, test_config) (rw (e, Option.map)),
    )
    | inr (text, e) ↦
        inl (((true, text), copied o), rw (k.loaded, test_config) (rw (e, Option.map)), refl)
  ]

  tested :
      ((text : Bytes) → AreStrings (ini_parse text))
      → (o : Options) → env.arguments ≡ parsed o
      → ((r : (Bool × Bytes) × Disk) × (test_config ini_parse sys o.config_filename disk ≡ some r)
          × (r.1 ≡ copied o))
        ⊎ (Crashes o × (test_config ini_parse sys o.config_filename disk ≡ none))
  unfolding test_config
  tested strings o e = elim (loaded_cases strings o e) [
    | inl (c, k) ↦ test_config_shown o c k
    | inr (r, (c, f)) ↦ inl (((false, []), copied o), rw (f, test_config), refl)
  ]

  test_args :
      (o : Options)
      → (o.version || o.list) ≡ false
      → o.test ≡ true
      → parse_args ini_parse sys o disk
        ≡ Option.map
            (λ (r : (Bool × Bytes) × Disk). (pos 1, r.1))
            (test_config ini_parse sys o.config_filename disk)
  unfolding parse_args
  test_args o h t = ground arith

  quick_args :
      (o : Options)
      → (o.version || o.list) ≡ true
      → parse_args ini_parse sys o disk ≡ some (pos 1, disk)
  unfolding parse_args
  quick_args o h = ground arith

  -- With one of them the result is 1, unless `config2json` reads past its buffer.
  pub asked_args :
      ((text : Bytes) → AreStrings (ini_parse text))
      → (o : Options) → env.arguments ≡ parsed o
      → (o.version || o.list || o.test) ≡ true
      → ((d : Disk) × (parse_args ini_parse sys o disk ≡ some (pos 1, d)) × Keeps d)
        ⊎ (Crashes o × (parse_args ini_parse sys o disk ≡ none))
  asked_args strings o e h = elim (Bool-cases (o.version || o.list)) [
    | inl q ↦ inl (disk, quick_args o q, inl refl)
    | inr q ↦ elim (tested strings o e) [
      | inl (r, f, d) ↦ inl (r.1, test_args o q (ground arith) ∙ rw (f, Option.map), inr (o, e, d))
      | inr (crash, f) ↦ inr (crash, test_args o q (ground arith) ∙ rw (f, Option.map))
    ]
  ]

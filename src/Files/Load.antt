-- ===== src/Files/Load.antt =====
-- What `load_config` makes of a file.
use capptpl.Base.{
  All, Bool, Bool-cases, Bytes, Lacks, List, Option, Option-cases, [], ap, arith, codes, false,
  if-both, if-cases, if◌then◌else◌, inl, inr, leb, ltb, none, refl, some, true, ◌&&◌, ◌++◌, ◌||◌,
  ◌∙◌, ◌∷◌, ◌≡◌, ◌≤◌,
}
use capptpl.Base.Int.{pos_part}
use capptpl.Config.{Config, item_of, parser_thread_default, parser_thread_max, validate, zeroed}
use capptpl.Config.Update.{IsValid, Settings, ini_callback-update, update, view, zeroed-IsValid}
use capptpl.Files.{
  Disk, Entry, System, call_back, can_read, content_of, copy_file, copy_file_from_tpl, load_config,
  load_config_ini, parse_config,
}

-- The values that inih hands over are strings.
abbrev pub AreStrings : List Entry → Type 0
AreStrings = All (λ e. Lacks 0 e.2)

-- The entries one after the other.
pub updates : List Entry → Settings → Settings
updates [] s = s
updates ((section, name, value) ∷ entries) s =
    updates entries (update (item_of section name) value s)

-- A number of threads from 1 to 256, or 4.
pub limited : Settings → Settings
limited s =
    if leb (pos_part s.parser_thread_num) 0 || ltb parser_thread_max (pos_part s.parser_thread_num)
    then record s { parser_thread_num = parser_thread_default }
    else s

call_back-updates :
    (entries : List Entry) (c : Config)
    → IsValid c
    → AreStrings entries
    → (c' : Config) × (call_back entries c ≡ some c')
      × IsValid c'
      × (view c' ≡ updates entries (view c))
unfolding call_back updates
call_back-updates [] c k h = (c, refl, k, refl)
call_back-updates ((section, name, value) ∷ entries) c k (h, hs) =
    let (c1, e, k1, v, _) = ini_callback-update c section name value k h in
    let (c2, e2, k2, v2) = call_back-updates entries c1 k1 hs in
    (c2, rw (e, call_back) e2, k2, v2 ∙ ap (updates entries) v)

validate-IsValid : (c : Config) → IsValid c → IsValid (validate c)
unfolding validate
validate-IsValid c k =
    if-both IsValid
      (leb (pos_part c.parser_thread_num) 0 || ltb parser_thread_max (pos_part c.parser_thread_num))
      (record {
        version_ends = k.version_ends;
        crt_file_ends = k.crt_file_ends;
        key_file_ends = k.key_file_ends;
        device_ends = k.device_ends;
        filter_ends = k.filter_ends;
        word_file_ends = k.word_file_ends;
        regex_file_ends = k.regex_file_ends;
        http_port_fits = k.http_port_fits;
        zmq_port_fits = k.zmq_port_fits;
        enable_ssl_fits = k.enable_ssl_fits;
        snaplen_fits = k.snaplen_fits;
        buffer_size_fits = k.buffer_size_fits;
        thread_num_fits = (omega arith, omega arith);
      })
      k

validate-limited : (c : Config) → view (validate c) ≡ limited (view c)
unfolding validate view limited
validate-limited c =
    if-cases (λ x. view x ≡ limited (view c))
      (leb (pos_part c.parser_thread_num) 0 || ltb parser_thread_max (pos_part c.parser_thread_num))
      _ _ (λ e. rw e) (λ e. rw e)

threads_limited :
    (c : Config)
    → (1 ≤ pos_part (validate c).parser_thread_num)
      × (pos_part (validate c).parser_thread_num ≤ parser_thread_max)
unfolding validate
threads_limited c =
    if-cases
      (λ (x : Config).
        (1 ≤ pos_part x.parser_thread_num) × (pos_part x.parser_thread_num ≤ parser_thread_max))
      (leb (pos_part c.parser_thread_num) 0 || ltb parser_thread_max (pos_part c.parser_thread_num))
      _ _ (λ e. (omega arith, omega arith)) (λ e. (ground (arith, e), ground (arith, e)))

copies_nothing :
    (sys : System) (filename t : Bytes) (disk : Disk)
    → disk filename ≡ some t
    → copy_file_from_tpl sys filename disk ≡ (true, disk)
unfolding copy_file_from_tpl
copies_nothing sys filename t disk e = rw (e, copy_file_from_tpl)

copy_fails :
    (sys : System) (filename : Bytes) (disk : Disk)
    → disk filename ≡ none
    → (copy_file_from_tpl sys filename disk).0 ≡ false
    → copy_file_from_tpl sys filename disk ≡ (false, disk)
unfolding copy_file_from_tpl copy_file
copy_fails sys filename disk e =
    rw (e, copy_file_from_tpl)
      (if-both (λ (r : Bool × Disk). r.0 ≡ false → r ≡ (false, disk))
        (can_read sys disk (filename ++ codes ".tpl") && sys.writable filename) (λ h. cc)
        (λ h. refl))

not_readable :
    (sys : System) (filename : Bytes) (disk : Disk)
    → (copy_file_from_tpl sys filename disk).0 ≡ false
    → can_read sys (copy_file_from_tpl sys filename disk).1 filename ≡ false
unfolding copy_file_from_tpl copy_file can_read
not_readable sys filename disk h = elim (Option-cases (disk filename)) [
  | inr (t, e) ↦
      absurd (cc (ap (λ (r : Bool × Disk). r.0) (copies_nothing sys filename t disk e), h))
  | inl e ↦ rw (copy_fails sys filename disk e h) (rw (e, can_read))
]

module _ (ini_parse : Bytes → List Entry) where
  -- The result, from whether the file is there to be read.
  abbrev pub Loads : System → Bytes → Disk → Bool → Option ((Bool × Config) × Disk) → Type 0
  Loads sys filename disk b o =
      (c : Config) × (o ≡ some ((b, c), disk))
      × IsValid c
      × (b ≡ true
          → (view c ≡ limited (updates (ini_parse (content_of (disk filename))) (view zeroed)))
            × (1 ≤ pos_part c.parser_thread_num)
            × (pos_part c.parser_thread_num ≤ parser_thread_max))

  loads_file :
      (sys : System) (filename : Bytes) (disk : Disk)
      → AreStrings (ini_parse (content_of (disk filename)))
      → can_read sys disk filename ≡ true
      → (c : Config) × (parse_config ini_parse sys filename disk zeroed ≡ some (true, c))
        × IsValid c
        × (view c ≡ updates (ini_parse (content_of (disk filename))) (view zeroed))
  unfolding parse_config
  loads_file sys filename disk h e =
      let (c, r, k, v) =
        call_back-updates (ini_parse (content_of (disk filename))) zeroed zeroed-IsValid h in
      (c, rw (e, parse_config) (rw r), k, v)

  ini_failed :
      (sys : System) (filename : Bytes) (disk : Disk)
      → (copy_file_from_tpl sys filename disk).0 ≡ false
      → load_config ini_parse sys filename disk
        ≡ some ((false, zeroed), (copy_file_from_tpl sys filename disk).1)
  unfolding load_config load_config_ini
  ini_failed sys filename disk h = rw (h, load_config, load_config_ini)

  ini_parsed :
      (sys : System) (filename : Bytes) (disk : Disk) (b : Bool) (c : Config)
      → (copy_file_from_tpl sys filename disk).0 ≡ true
      → parse_config ini_parse sys filename (copy_file_from_tpl sys filename disk).1 zeroed
        ≡ some (b, c)
      → load_config ini_parse sys filename disk
        ≡ some ((b, if b then validate c else c), (copy_file_from_tpl sys filename disk).1)
  unfolding load_config load_config_ini
  ini_parsed sys filename disk true c h e = rw (h, load_config, load_config_ini) (rw e)
  ini_parsed sys filename disk false c h e = rw (h, load_config, load_config_ini) (rw e)

  -- Where inih hands over strings: `load_config` never writes outside a field, and leaves a valid
  -- configuration. It returns 0 exactly if the file, or its copy from the template, can be read;
  -- the configuration is then what the file's entries make of an empty one, one after the other,
  -- with a number of threads from 1 to 256.
  pub load_config-Loads :
      ((text : Bytes) → AreStrings (ini_parse text))
      → (sys : System) (filename : Bytes) (disk : Disk)
      → Loads sys filename
          (copy_file_from_tpl sys filename disk).1
          (can_read sys (copy_file_from_tpl sys filename disk).1 filename)
          (load_config ini_parse sys filename disk)
  load_config-Loads strings sys filename disk =
      let disk' = (copy_file_from_tpl sys filename disk).1 in
      elim (Bool-cases (copy_file_from_tpl sys filename disk).0) [
        | inr h ↦
            rw (not_readable sys filename disk h)
              (zeroed, ini_failed sys filename disk h, zeroed-IsValid, λ k. cc)
        | inl h ↦ elim (Bool-cases (can_read sys disk' filename)) [
          | inl e ↦
              let (c, r, k, v) = loads_file sys filename disk' (strings _) e in
              rw e (
                validate c,
                ini_parsed sys filename disk true c h r,
                validate-IsValid c k,
                λ _. (
                  validate-limited c ∙ ap limited v,
                  (threads_limited c).0,
                  (threads_limited c).1,
                ),
              )
          | inr e ↦ rw e (
            zeroed,
            ini_parsed sys filename disk false zeroed h (unfold parse_config in rw e),
            zeroed-IsValid,
            λ k. cc,
          )
        ]
      ]

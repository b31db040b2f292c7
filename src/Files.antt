-- ===== src/Files.antt =====
-- lib/load_config.c: `copy_file`, `copy_file_from_tpl` and `load_config_ini`; and `load_config` of
-- apptpl/myconfig.c. A disk gives the content of each path that exists; which files can be opened
-- and how much of a block is written is an argument, and so is the inih library.
pub mod Directory
pub mod Load
pub mod Copy
use mathlib.Core.Option
use capptpl.Base.{
  Bool, Bytes, List, Option, [], codes, drop, false, if◌then◌else◌, length, min, none, some, str_eq,
  suc, take, true, zero, ℕ, ◌&&◌, ◌++◌, ◌+◌, ◌==◌, ◌∷◌,
}
use capptpl.Config.{Config, ini_callback, validate, zeroed}

abbrev pub Disk : Type 0
Disk = Bytes → Option Bytes

abbrev pub put : Bytes → Bytes → Disk → Disk
put path content disk p = if str_eq path p then some content else disk p

-- What the system answers: whether a file that exists can be read, whether a path can be written,
-- and how many bytes the `i`th `fwrite` takes at most.
pub record System : Type 0 where
  pub readable : Bytes → Bool
  pub writable : Bytes → Bool
  pub accepts : ℕ → ℕ

abbrev pub block_size : ℕ
block_size = 64

-- The loop of `copy_file`, from its `i`th round on: what is left to read, and what is written.
unfoldable pub copy_loop : ℕ → System → ℕ → Bytes → Bytes
copy_loop zero sys i input = []
copy_loop (suc fuel) sys i input =
    let rest = copy_loop fuel sys (i + 1) (drop block_size input) in
    let block = take block_size input in
    let n = min (sys.accepts i) (length block) in if n == 0 then [] else take n block ++ rest

-- What is read at an opened path.
abbrev pub content_of : Option Bytes → Bytes
content_of none = []
content_of (some t) = t

-- `open(in)`, which needs the file.
unfoldable pub can_read : System → Disk → Bytes → Bool
can_read sys disk path = elim (disk path) [ none ↦ false | some t ↦ sys.readable path ]

-- Whether it returns 0, and the disk. To open `out_path` empties it.
unfoldable pub copy_file : System → Bytes → Bytes → Disk → Bool × Disk
unfolding can_read copy_loop
copy_file sys in_path out_path disk =
    if can_read sys disk in_path && sys.writable out_path
    then (let input = content_of (put out_path [] disk in_path) in
        (true, put out_path (copy_loop (suc (length input)) sys 0 input) (put out_path [] disk)))
    else (false, disk)

unfoldable pub copy_file_from_tpl : System → Bytes → Disk → Bool × Disk
unfolding copy_file
copy_file_from_tpl sys filename disk = elim (disk filename) [
  | some t ↦ (true, disk)
  | none ↦ copy_file sys (filename ++ codes ".tpl") filename disk
]

-- A section, a name and a value.
abbrev pub Entry : Type 0
Entry = Bytes × Bytes × Bytes

-- The calls of `ini_callback`, in their order; its result only tells inih of an error.
unfoldable pub call_back : List Entry → Config → Option Config
unfolding ini_callback
call_back [] c = some c
call_back ((section, name, value) ∷ entries) c = elim (ini_callback c section name value) [
  | none ↦ none
  | some (c', code) ↦ call_back entries c'
]

module _ (ini_parse : Bytes → List Entry) where
  -- `ini_parse` is below 0 where the file cannot be opened. `none` is a write outside a field.
  unfoldable pub parse_config : System → Bytes → Disk → Config → Option (Bool × Config)
  unfolding can_read call_back
  parse_config sys filename disk c =
      if can_read sys disk filename
      then Option.map (λ c'. (true, c')) (call_back (ini_parse (content_of (disk filename))) c)
      else some (false, c)

  -- Whether it returns 0, the configuration, and the disk. The file is copied from its template
  -- just as `copy_file_from_tpl` does it.
  unfoldable pub load_config_ini : System → Bytes → Disk → Config → Option ((Bool × Config) × Disk)
  unfolding copy_file_from_tpl parse_config
  load_config_ini sys filename disk c =
      let (copied, disk') = copy_file_from_tpl sys filename disk in
      if copied
      then Option.map (λ r. (r, disk')) (parse_config sys filename disk' c)
      else some ((false, c), disk')

  -- `load_config` of apptpl/myconfig.c.
  unfoldable pub load_config : System → Bytes → Disk → Option ((Bool × Config) × Disk)
  unfolding load_config_ini validate zeroed
  load_config sys filename disk =
      Option.map
        (λ (r : (Bool × Config) × Disk). if r.0.0 then ((true, validate r.0.1), r.1) else r)
        (load_config_ini sys filename disk zeroed)

-- ===== src/Tests/Files.antt =====
-- The files and the configuration's loading at a concrete disk.
use capptpl.Base.{Bytes, List, [], arith, codes, none, true, ◌∷◌}
use capptpl.Files.{Disk, Entry, System, can_read, copy_file_from_tpl, load_config, put}
use capptpl.Files.Copy.{Copies, copy_file_from_tpl-Copies}
use capptpl.Files.Load.{AreStrings, Loads, load_config-Loads}

abbrev pub template_only : Disk
template_only = put (codes "a.ini.tpl") (codes "port=1") (λ p. none)

abbrev pub works : System
works = record { readable = λ p. true; writable = λ p. true; accepts = λ i. 64 }

-- An inih that finds one entry in every file.
abbrev pub one_entry : Bytes → List Entry
one_entry text = (codes "zmq", codes "port", codes "8080") ∷ []

pub one_entry_strings : (text : Bytes) → AreStrings (one_entry text)
one_entry_strings text = (((λ e. cc), ((λ e. cc), ((λ e. cc), ((λ e. cc), tt)))), tt)

copy_file_from_tpl-Copies_example :
    Copies works
      (codes "a.ini")
      template_only
      (copy_file_from_tpl works (codes "a.ini") template_only)
copy_file_from_tpl-Copies_example =
    copy_file_from_tpl-Copies works (codes "a.ini") template_only (λ i. omega arith)

load_config-Loads_example :
    Loads one_entry works
      (codes "a.ini")
      (copy_file_from_tpl works (codes "a.ini") template_only).1
      (can_read works (copy_file_from_tpl works (codes "a.ini") template_only).1 (codes "a.ini"))
      (load_config one_entry works (codes "a.ini") template_only)
load_config-Loads_example =
    load_config-Loads one_entry one_entry_strings works (codes "a.ini") template_only

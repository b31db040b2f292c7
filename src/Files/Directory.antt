-- ===== src/Files/Directory.antt =====
-- `ch_exec_cwd` of lib/load_config.c, on Linux: the program goes to the directory of its own file.
use mathlib.Core.Option
use capptpl.Base.{
  All-append, Bool, Bytes, Lacks, Option, [], ap, arith, codes, false, if-cases, if◌then◌else◌,
  length, ltb, none, refl, replicate, some, suc, take, take-all, zero, ℕ, ◌++◌, ◌-◌, ◌<◌, ◌==◌, ◌∙◌,
  ◌∷◌, ◌≡◌, ◌≢◌, ◌≤◌,
}
use capptpl.Config.Json.{read_text}
use capptpl.Config.Json.Escape.{read_text-buffer, read_text_full}

-- `char path[4096]`, which `readlink` does not terminate.
abbrev pub path_size : ℕ
path_size = 4096

-- A path without the slashes at its end.
unfoldable pub strip_slashes : Bytes → Bytes
strip_slashes [] = []
strip_slashes (c ∷ s) =
    let rest = strip_slashes s in
    elim rest [ [] ↦ if c == b'/' then [] else c ∷ [] | d ∷ t ↦ c ∷ d ∷ t ]

-- What stands before the last slash.
unfoldable pub before_slash : Bytes → Option Bytes
before_slash [] = none
before_slash (c ∷ s) =
    let rest = before_slash s in
    elim rest [ none ↦ if c == b'/' then some [] else none | some d ↦ some (c ∷ d) ]

-- A directory of no bytes is the root.
abbrev pub or_root : Bytes → Bytes
or_root [] = codes "/"
or_root (c ∷ s) = c ∷ s

-- `dirname`
unfoldable pub dirname : Bytes → Bytes
unfolding strip_slashes before_slash
dirname path = elim (before_slash (strip_slashes path)) [
  | none ↦ elim path [ [] ↦ codes "." | c ∷ s ↦ if c == b'/' then codes "/" else codes "." ]
  | some d ↦ or_root (strip_slashes d)
]

-- Whether it returns 0; `none` is a read past the end of the buffer. The arguments are the target
-- of `/proc/self/exe`, which `readlink` cuts at the size of the buffer, and the directories that
-- `chdir` can enter.
unfoldable pub ch_exec_cwd : Option Bytes → (Bytes → Bool) → Option Bool
unfolding dirname read_text
ch_exec_cwd none chdir = some false
ch_exec_cwd (some target) chdir =
    Option.map (λ path. chdir (dirname path))
      (read_text (take path_size target ++ replicate (path_size - length target) 0))

-- A path that does not end with a slash.
abbrev pub EndsPlain : Bytes → Type 0
EndsPlain [] = ⊥
EndsPlain (c ∷ []) = (c == b'/') ≡ false
EndsPlain (c ∷ d ∷ s) = EndsPlain (d ∷ s)

strip_slashes-EndsPlain : (s : Bytes) → EndsPlain s → strip_slashes s ≡ s
unfolding strip_slashes
strip_slashes-EndsPlain [] h = refl
strip_slashes-EndsPlain (c ∷ []) h = rw h refl
strip_slashes-EndsPlain (c ∷ d ∷ s) h = rw (strip_slashes-EndsPlain (d ∷ s) h) refl

before_slash-Lacks : (name : Bytes) → Lacks b'/' name → before_slash name ≡ none
unfolding before_slash
before_slash-Lacks [] h = refl
before_slash-Lacks (c ∷ s) (h, hs) = rw (before_slash-Lacks s hs) (ground arith)

before_slash-append :
    (dir name : Bytes) → Lacks b'/' name → before_slash (dir ++ b'/' ∷ name) ≡ some dir
unfolding before_slash
before_slash-append [] name h = rw (before_slash-Lacks name h) refl
before_slash-append (c ∷ dir) name h = rw (before_slash-append dir name h) refl

EndsPlain-append : (dir name : Bytes) → EndsPlain name → EndsPlain (dir ++ b'/' ∷ name)
EndsPlain-append [] [] h = elim h [ ]
EndsPlain-append [] (c ∷ name) h = h
EndsPlain-append (c ∷ []) name h = EndsPlain-append [] name h
EndsPlain-append (c ∷ d ∷ dir) name h = EndsPlain-append (d ∷ dir) name h

or_root-EndsPlain : (dir : Bytes) → EndsPlain dir → or_root dir ≡ dir
or_root-EndsPlain [] h = elim h [ ]
or_root-EndsPlain (c ∷ dir) h = refl

pub dirname-append :
    (dir name : Bytes)
    → EndsPlain dir
    → EndsPlain name
    → Lacks b'/' name
    → dirname (dir ++ b'/' ∷ name) ≡ dir
unfolding dirname
dirname-append dir name d n h =
    rw (strip_slashes-EndsPlain _ (EndsPlain-append dir name n), dirname)
      (rw (before_slash-append dir name h, dirname)
        (rw (strip_slashes-EndsPlain dir d) (or_root-EndsPlain dir d)))

Lacks-take : (b n : ℕ) (s : Bytes) → Lacks b s → Lacks b (take n s)
Lacks-take b zero s h = tt
Lacks-take b (suc n) [] h = tt
Lacks-take b (suc n) (c ∷ s) (h, hs) = (h, Lacks-take b n s hs)

pub path_fits :
    (target : Bytes) (chdir : Bytes → Bool)
    → Lacks 0 target
    → length target < path_size
    → ch_exec_cwd (some target) chdir ≡ some (chdir (dirname target))
unfolding ch_exec_cwd
path_fits target chdir h l =
    let room : path_size - length target ≡ suc (path_size - length target - 1) = omega arith in
    rw (take-all {0} path_size target (omega arith), ch_exec_cwd)
      (rw (room, ch_exec_cwd)
        (rw (read_text-buffer target (path_size - length target - 1) h, Option.map) refl))

path_overflows :
    (target : Bytes) (chdir : Bytes → Bool)
    → Lacks 0 target
    → path_size ≤ length target
    → ch_exec_cwd (some target) chdir ≡ none
unfolding ch_exec_cwd
path_overflows target chdir h l =
    let room : path_size - length target ≡ 0 = omega arith in
    rw (room, ch_exec_cwd)
      (rw (read_text_full (take path_size target) (Lacks-take 0 path_size target h), Option.map)
        refl)

-- For a program file `name` in the directory `dir`, which does not end with a slash: where the whole
-- path is shorter than 4096 bytes, the program goes to `dir`, and succeeds exactly if `chdir` does;
-- where it is not, the buffer that `readlink` has filled has no NUL and is read past its end.
pub ch_exec_cwd-directory :
    (dir name : Bytes) (chdir : Bytes → Bool)
    → EndsPlain dir
    → EndsPlain name
    → Lacks b'/' name
    → Lacks 0 dir
    → Lacks 0 name
    → ch_exec_cwd (some (dir ++ b'/' ∷ name)) chdir
      ≡ (if ltb (length (dir ++ b'/' ∷ name)) path_size then some (chdir dir) else none)
ch_exec_cwd-directory dir name chdir d n h zd zn =
    let whole : Lacks 0 (dir ++ b'/' ∷ name) =
      All-append (λ c. c ≢ 0) dir (b'/' ∷ name) zd (omega arith, zn) in
    let p : Bytes = dir ++ b'/' ∷ name in
    if-cases (λ r. ch_exec_cwd (some p) chdir ≡ r) (ltb (length p) path_size) _ _
      (λ l.
        path_fits p chdir whole (ground (arith, l))
        ∙ ap (λ q. some (chdir q)) (dirname-append dir name d n h))
      (λ l. path_overflows p chdir whole (ground (arith, l)))

-- ===== src/Files/Copy.antt =====
-- What `copy_file_from_tpl` leaves on the disk.
use mathlib.Core.Path.{subst}
use capptpl.Base.{
  Bool, Bool-cases, Bytes, Option, Option-cases, [], ap, arith, codes, drop, eq_of_str_eq, false,
  inl, inr, length, length-append, length-drop, length-take, min, none, refl, some, str_eq,
  str_eq_refl, suc, sym, take, take-all, take-append-drop, true, zero, ℕ, ◌&&◌, ◌++◌, ◌+◌, ◌<◌,
  ◌==◌, ◌∙◌, ◌∷◌, ◌≡◌, ◌≢◌, ◌≤◌,
}
use capptpl.Files.{
  Disk, System, block_size, can_read, content_of, copy_file, copy_file_from_tpl, copy_loop, put,
}

-- Every `fwrite` takes the whole block.
abbrev pub Accepts : System → Type 0
Accepts sys = (i : ℕ) → block_size ≤ sys.accepts i

-- The first of two files that is there.
abbrev pub first_of : Option Bytes → Option Bytes → Option Bytes
first_of none o = o
first_of (some t) o = some t

-- The round that writes a block.
copy_block :
    (sys : System) (fuel i : ℕ) (input : Bytes)
    → block_size ≤ sys.accepts i
    → input ≢ []
    → copy_loop (suc fuel) sys i input
      ≡ take block_size input ++ copy_loop fuel sys (i + 1) (drop block_size input)
unfolding copy_loop
copy_block sys fuel i [] a ne = absurd (ne refl)
copy_block sys fuel i (c ∷ input) a ne =
    let block = take block_size (c ∷ input) in
    let same : min (sys.accepts i) (length block) ≡ length block =
      omega (arith, a, length-take block_size (c ∷ input)) in
    let some_left : (length block == 0) ≡ false = ground (arith) in
    let rest = copy_loop fuel sys (i + 1) (drop block_size (c ∷ input)) in
    rw same (rw some_left (ap (λ b. b ++ rest) (take-all (length block) block (omega arith))))

copy_loop_all :
    (sys : System)
    → Accepts sys
    → (fuel i : ℕ) (input : Bytes) → length input < fuel
    → copy_loop fuel sys i input ≡ input
unfolding copy_loop
copy_loop_all sys a zero i input h = absurd (omega arith)
copy_loop_all sys a (suc fuel) i [] h = ground arith
copy_loop_all sys a (suc fuel) i (c ∷ input) h =
    copy_block sys fuel i (c ∷ input) (a i) (λ e. cc)
    ∙ ap (λ rest. take block_size (c ∷ input) ++ rest)
        (copy_loop_all sys a fuel (i + 1) (drop block_size (c ∷ input))
          (omega (arith, h, length-drop block_size (c ∷ input))))
    ∙ take-append-drop block_size (c ∷ input)

put_same : (p t : Bytes) (disk : Disk) → put p t disk p ≡ some t
put_same p t disk = rw (str_eq_refl p)

put_other : (p q t : Bytes) (disk : Disk) → q ≢ p → put p t disk q ≡ disk q
put_other p q t disk ne = elim (Bool-cases (str_eq p q)) [
  | inl e ↦ absurd (ne (sym (eq_of_str_eq p q e)))
  | inr e ↦ rw e
]

longer_name : (p : Bytes) → p ++ codes ".tpl" ≢ p
longer_name p e = absurd (omega (arith, ap length e, length-append {0} p (codes ".tpl")))

-- A template that can be read, and a path that can be written.
pub can_copy : System → Disk → Bytes → Bool
can_copy sys disk filename = can_read sys disk (filename ++ codes ".tpl") && sys.writable filename

template : Bytes → Bytes
template filename = filename ++ codes ".tpl"

readable_content :
    (sys : System) (disk : Disk) (p : Bytes)
    → can_read sys disk p ≡ true
    → disk p ≡ some (content_of (disk p))
unfolding can_read
readable_content sys disk p h = go (disk p) refl
  where
    go : (o : Option Bytes) → disk p ≡ o → disk p ≡ some (content_of (disk p))
    go none e = absurd (cc (ap (λ o. elim o [ none ↦ false | some t ↦ sys.readable p ]) e, h))
    go (some t) e = rw e

copied_disk : Bytes → Disk → Disk
copied_disk filename disk =
    put filename (content_of (disk (template filename))) (put filename [] disk)

copy_file_good :
    (sys : System) (filename : Bytes) (disk : Disk)
    → Accepts sys
    → can_copy sys disk filename ≡ true
    → copy_file sys (filename ++ codes ".tpl") filename disk ≡ (true, copied_disk filename disk)
unfolding copy_file can_copy copied_disk template
copy_file_good sys filename disk a h =
    let tpl = filename ++ codes ".tpl" in
    let input = content_of (put filename [] disk tpl) in
    rw (h, copy_file)
      (ap (λ t. (true, put filename t (put filename [] disk)))
        (copy_loop_all sys a (suc (length input)) 0 input (omega arith)
          ∙ ap content_of (put_other filename tpl [] disk (longer_name filename))))

copy_file_bad :
    (sys : System) (filename : Bytes) (disk : Disk)
    → can_copy sys disk filename ≡ false
    → copy_file sys (filename ++ codes ".tpl") filename disk ≡ (false, disk)
unfolding copy_file can_copy
copy_file_bad sys filename disk h = rw (h, copy_file)

-- What a result of `copy_file_from_tpl` says.
abbrev pub Copies : System → Bytes → Disk → Bool × Disk → Type 0
Copies sys filename disk r =
    ((p : Bytes) → p ≢ filename → r.1 p ≡ disk p)
    × (r.0 ≡ true
        → (r.1 filename ≡ first_of (disk filename) (disk (filename ++ codes ".tpl")))
          × (r.1 filename ≢ none))
    × (r.0 ≡ false → (r.1 filename ≡ none) × (can_copy sys disk filename ≡ false))

already_there :
    (sys : System) (filename t : Bytes) (disk : Disk)
    → disk filename ≡ some t
    → Copies sys filename disk (true, disk)
already_there sys filename t disk e = (λ p ne. refl, λ h. (rw e, λ n. cc), λ h. cc)

not_copied :
    (sys : System) (filename : Bytes) (disk : Disk)
    → disk filename ≡ none
    → can_copy sys disk filename ≡ false
    → Copies sys filename disk (false, disk)
not_copied sys filename disk e h = (λ p ne. refl, λ k. cc, λ k. (e, h))

is_copied :
    (sys : System) (filename : Bytes) (disk : Disk)
    → disk filename ≡ none
    → can_copy sys disk filename ≡ true
    → Copies sys filename disk (true, copied_disk filename disk)
unfolding copied_disk template can_copy
is_copied sys filename disk e h =
    let tpl = filename ++ codes ".tpl" in
    let whole = put_same filename (content_of (disk tpl)) (put filename [] disk) in
    let there : can_read sys disk tpl ≡ true = ground arith in
    (
      λ p ne. put_other filename p _ (put filename [] disk) ne ∙ put_other filename p [] disk ne,
      λ k. (
        whole ∙ sym (readable_content sys disk tpl there) ∙ ap (λ o. first_of o (disk tpl)) (sym e),
        λ n. cc (whole, n),
      ),
      λ k. cc,
    )

-- Where every `fwrite` takes its whole block: `copy_file_from_tpl` changes no other file. If it
-- returns 0 the file is there, with what it had, or else with the whole of its template; if it
-- fails the file is not there, since the template cannot be read or the file not be written.
pub copy_file_from_tpl-Copies :
    (sys : System) (filename : Bytes) (disk : Disk)
    → Accepts sys
    → Copies sys filename disk (copy_file_from_tpl sys filename disk)
unfolding copy_file_from_tpl
copy_file_from_tpl-Copies sys filename disk a = elim (Option-cases (disk filename)) [
  | inr (t, e) ↦
      subst (Copies sys filename disk) (sym (rw (e, copy_file_from_tpl)))
        (already_there sys filename t disk e)
  | inl e ↦ elim (Bool-cases (can_copy sys disk filename)) [
    | inl h ↦
        subst (Copies sys filename disk)
          (sym (rw (e, copy_file_from_tpl) (copy_file_good sys filename disk a h)))
          (is_copied sys filename disk e h)
    | inr h ↦
        subst (Copies sys filename disk)
          (sym (rw (e, copy_file_from_tpl) (copy_file_bad sys filename disk h)))
          (not_copied sys filename disk e h)
  ]
]

-- ===== src/Reports/Dump.antt =====
-- When `capture_dump` of apptpl/capture.c stays within its buffer.
use capptpl.Base.{
  Bool, Bytes, Lacks, Option, [], ap, arith, false, if-cases, if◌then◌else◌, inl, inr, length, ltb,
  none, refl, replicate, some, suc, true, ℕ, ◌-◌, ◌<◌, ◌∙◌, ◌≡◌, ◌≤◌, ◌⊎◌,
}
use capptpl.Capture.{Capture, Stats, capture_stats}
use capptpl.Config.Json.{device_size, dump_device}
use capptpl.Config.Json.Escape.{buffer, escape, read_text-buffer, read_text_full}
use capptpl.Reports.{capture_dump, capture_text, dump_with, dumped_device}
use capptpl.Reports.Device.{dump_device_fits, dump_device_overflows, escape-Lacks}

device_fits :
    (device : Bytes)
    → length device < device_size
    → Lacks 0 device
    → length (escape device) < device_size
    → dumped_device device ≡ some (escape device)
unfolding dumped_device
device_fits device h l e =
    let free = device_size - 1 - length (escape device) in
    let whole : dump_device device 0 0 (replicate device_size 0)
        ≡ some (buffer (escape device) (suc free)) =
      dump_device_fits device 0 device_size (suc free) [] (omega arith) (omega arith) in
    rw (whole, dumped_device) (read_text-buffer (escape device) free (escape-Lacks device l))

device_full :
    (device : Bytes)
    → length device < device_size
    → Lacks 0 device
    → length (escape device) ≡ device_size
    → dumped_device device ≡ none
unfolding dumped_device
device_full device h l e =
    let whole : dump_device device 0 0 (replicate device_size 0) ≡ some (buffer (escape device) 0) =
      dump_device_fits device 0 device_size 0 [] (omega arith) (omega arith) in
    rw (whole, dumped_device) (read_text_full (escape device) (escape-Lacks device l))

device_overflows :
    (device : Bytes)
    → length device < device_size
    → device_size < length (escape device)
    → dumped_device device ≡ none
unfolding dumped_device
device_overflows device h e =
    let fault : dump_device device 0 0 (replicate device_size 0) ≡ none =
      dump_device_overflows device 0 device_size [] (omega arith) e in
    rw (fault, dumped_device)

dumped_device_lem :
    (device : Bytes)
    → length device < device_size
    → Lacks 0 device
    → dumped_device device
      ≡ (if ltb (length (escape device)) device_size then some (escape device) else none)
dumped_device_lem device h l =
    if-cases (λ o. dumped_device device ≡ o) (ltb (length (escape device)) device_size) _ _
      (λ e. device_fits device h l (ground (arith, e)))
      (λ e. elim (≤-cases device_size (length (escape device)) (ground (arith, e))) [
        | inl same ↦ device_full device h l same
        | inr more ↦ device_overflows device h more
      ])
  where
    ≤-cases : (m n : ℕ) → m ≤ n → (n ≡ m) ⊎ (m < n)
    ≤-cases m n k = ground arith

dump_with_cases :
    (answer : Option Stats) (c : Capture) (device : Bytes) (b : Bool)
    → dump_with answer c (if b then some device else none) ≡ (
        if b
        then some (capture_text (capture_stats answer c).1 device, (capture_stats answer c).1)
        else none)
unfolding dump_with
dump_with_cases answer c device true = refl
dump_with_cases answer c device false = refl

-- For a capture whose device is a string of less than 160 bytes, as the configuration's are:
-- `capture_dump` writes or reads outside its buffer exactly if the escaped name has 160 bytes or
-- more; otherwise its text shows the whole escaped name and the statistics that it has asked for.
pub capture_dump_cases :
    (answer : Option Stats) (c : Capture)
    → length c.device < device_size
    → Lacks 0 c.device
    → capture_dump answer c ≡ (
        if ltb (length (escape c.device)) device_size
        then some
            (capture_text (capture_stats answer c).1 (escape c.device), (capture_stats answer c).1)
        else none)
unfolding capture_dump
capture_dump_cases answer c h l =
    ap (dump_with answer c) (dumped_device_lem c.device h l)
    ∙ dump_with_cases answer c (escape c.device) (ltb (length (escape c.device)) device_size)

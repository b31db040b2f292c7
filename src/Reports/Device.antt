-- ===== src/Reports/Device.antt =====
-- The loop of `capture_dump` over the device's name.
use capptpl.Base.{
  Bool-cases, Bytes, Lacks, [], ap, append-nil, append_assoc, arith, false, if-both, inl, inr,
  length, length-append, lt→ltb, none, refl, some, suc, sym, true, zero, ℕ, ◌++◌, ◌+◌, ◌-◌, ◌<◌,
  ◌∙◌, ◌∷◌, ◌≡◌,
}
use capptpl.Config.Json.{device_size, dump_device, is_special, put_char}
use capptpl.Config.Json.Device.{length-snoc, put_full, put_plain, put_special, put_special_full}
use capptpl.Config.Json.Escape.{buffer, escape}

dump_special :
    (c i room : ℕ) (src out : Bytes)
    → is_special c ≡ true
    → i < device_size - 1
    → dump_device (c ∷ src) i (length out) (buffer out (suc (suc room)))
      ≡ dump_device src
          (i + 1)
          (length (out ++ b'\\' ∷ c ∷ []))
          (buffer (out ++ b'\\' ∷ c ∷ []) room)
unfolding dump_device
dump_special c i room src out h l =
    let two : length out + 1 + 1 ≡ length (out ++ b'\\' ∷ c ∷ []) =
      omega (arith, length-append {0} out (b'\\' ∷ c ∷ [])) in
    rw (lt→ltb _ _ l) (rw (put_special c room out h))
    ∙ ap (λ n. dump_device src (i + 1) n (buffer (out ++ b'\\' ∷ c ∷ []) room)) two

dump_plain :
    (c i room : ℕ) (src out : Bytes)
    → is_special c ≡ false
    → i < device_size - 1
    → dump_device (c ∷ src) i (length out) (buffer out (suc room))
      ≡ dump_device src (i + 1) (length (out ++ c ∷ [])) (buffer (out ++ c ∷ []) room)
unfolding dump_device
dump_plain c i room src out h l =
    rw (lt→ltb _ _ l) (rw (put_plain c room out h))
    ∙ ap (λ n. dump_device src (i + 1) n (buffer (out ++ c ∷ []) room)) (sym (length-snoc out c))

dump_full :
    (c i room : ℕ) (src out : Bytes)
    → i < device_size - 1
    → put_char c (length out) (buffer out room) ≡ none
    → dump_device (c ∷ src) i (length out) (buffer out room) ≡ none
unfolding dump_device
dump_full c i room src out l e = rw (lt→ltb _ _ l) (rw e)

escape_special_length :
    (c : ℕ) (s : Bytes) → is_special c ≡ true → escape (c ∷ s) ≡ b'\\' ∷ c ∷ escape s
unfolding escape
escape_special_length c s h = rw h

escape_plain_length : (c : ℕ) (s : Bytes) → is_special c ≡ false → escape (c ∷ s) ≡ c ∷ escape s
unfolding escape
escape_plain_length c s h = rw h

-- Where there is room for the escaped rest of the name.
pub dump_device_fits :
    (src : Bytes) (i room rest : ℕ) (out : Bytes)
    → i + length src < device_size
    → room ≡ length (escape src) + rest
    → dump_device src i (length out) (buffer out room) ≡ some (buffer (out ++ escape src) rest)
unfolding dump_device escape
dump_device_fits [] i room rest out h e =
    simp append-nil (ap (λ n. some (buffer out n)) (omega (arith, e)))
dump_device_fits (c ∷ src) i room rest out h e = elim (Bool-cases (is_special c)) [
  | inl s ↦
      let r = length (escape src) + rest in
      let big : room ≡ suc (suc r) = omega (arith, e, ap length (escape_special_length c src s)) in
      ap (λ n. dump_device (c ∷ src) i (length out) (buffer out n)) big
      ∙ dump_special c i r src out s (omega arith)
      ∙ dump_device_fits src (i + 1) r rest (out ++ b'\\' ∷ c ∷ []) (omega arith) refl
      ∙ ap (λ t. some (buffer t rest))
          (simp append_assoc (ap (λ t. out ++ t) (sym (escape_special_length c src s))))
  | inr s ↦
      let r = length (escape src) + rest in
      let big : room ≡ suc r = omega (arith, e, ap length (escape_plain_length c src s)) in
      ap (λ n. dump_device (c ∷ src) i (length out) (buffer out n)) big
      ∙ dump_plain c i r src out s (omega arith)
      ∙ dump_device_fits src (i + 1) r rest (out ++ c ∷ []) (omega arith) refl
      ∙ ap (λ t. some (buffer t rest))
          (simp append_assoc (ap (λ t. out ++ t) (sym (escape_plain_length c src s))))
]

-- Where there is none.
pub dump_device_overflows :
    (src : Bytes) (i room : ℕ) (out : Bytes)
    → i + length src < device_size
    → room < length (escape src)
    → dump_device src i (length out) (buffer out room) ≡ none
unfolding escape
dump_device_overflows [] i room out h l = absurd (omega arith)
dump_device_overflows (c ∷ src) i zero out h l =
    dump_full c i 0 src out (omega arith) (put_full c out)
dump_device_overflows (c ∷ src) i (suc zero) out h l = elim (Bool-cases (is_special c)) [
  | inl s ↦ dump_full c i 1 src out (omega arith) (put_special_full c out s)
  | inr s ↦
      dump_plain c i 0 src out s (omega arith)
      ∙ dump_device_overflows src (i + 1) 0 (out ++ c ∷ []) (omega arith)
          (omega (arith, l, ap length (escape_plain_length c src s)))
]
dump_device_overflows (c ∷ src) i (suc (suc room)) out h l = elim (Bool-cases (is_special c)) [
  | inl s ↦
      dump_special c i room src out s (omega arith)
      ∙ dump_device_overflows src (i + 1) room (out ++ b'\\' ∷ c ∷ []) (omega arith)
          (omega (arith, l, ap length (escape_special_length c src s)))
  | inr s ↦
      dump_plain c i (suc room) src out s (omega arith)
      ∙ dump_device_overflows src (i + 1) (suc room) (out ++ c ∷ []) (omega arith)
          (omega (arith, l, ap length (escape_plain_length c src s)))
]

pub escape-Lacks : (s : Bytes) → Lacks 0 s → Lacks 0 (escape s)
unfolding escape is_special
escape-Lacks [] h = tt
escape-Lacks (c ∷ s) (h, hs) =
    let rest = escape-Lacks s hs in if-both (Lacks 0) (is_special c) (λ e. cc, (h, rest)) (h, rest)

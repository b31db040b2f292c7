-- ===== src/Config/Json/Device.antt =====
-- The two loops that escape a device name, each against the escaped name.
use capptpl.Base.{
  Bool-cases, Bytes, [], ap, append-nil, append_assoc, arith, false, if◌then◌else◌, inl, inr,
  length, length-append, lt→ltb, none, refl, some, suc, sym, true, zero, ℕ, ◌++◌, ◌+◌, ◌-◌, ◌<◌,
  ◌∙◌, ◌∷◌, ◌≡◌,
}
use capptpl.Config.Json.{device_size, escape_device, is_special, put_char, store}
use capptpl.Config.Json.Escape.{buffer, escape, store_full, store_next}

pub length-snoc : (out : Bytes) (c : ℕ) → length (out ++ c ∷ []) ≡ length out + 1
length-snoc out c = omega (arith, length-append {0} out (c ∷ []))

store_second :
    (out : Bytes) (room c : ℕ)
    → store (buffer (out ++ b'\\' ∷ []) (suc room)) (length out + 1) c
      ≡ some (buffer (out ++ b'\\' ∷ c ∷ []) room)
store_second out room c =
    rw (← length-snoc out b'\\') (rw (store_next (out ++ b'\\' ∷ []) room c) (simp append_assoc))

store_second_full :
    (out : Bytes) (c : ℕ) → store (buffer (out ++ b'\\' ∷ []) 0) (length out + 1) c ≡ none
store_second_full out c = rw (← length-snoc out b'\\') (store_full (out ++ b'\\' ∷ []) c)

pub put_plain :
    (c room : ℕ) (out : Bytes)
    → is_special c ≡ false
    → put_char c (length out) (buffer out (suc room))
      ≡ some (length out, buffer (out ++ c ∷ []) room)
unfolding put_char
put_plain c room out h = rw h (rw (store_next out room c))

pub put_special :
    (c room : ℕ) (out : Bytes)
    → is_special c ≡ true
    → put_char c (length out) (buffer out (suc (suc room)))
      ≡ some (length out + 1, buffer (out ++ b'\\' ∷ c ∷ []) room)
unfolding put_char
put_special c room out h =
    rw h (rw (store_next out (suc room) b'\\') (rw (store_second out room c)))

pub put_special_full :
    (c : ℕ) (out : Bytes) → is_special c ≡ true → put_char c (length out) (buffer out 1) ≡ none
unfolding put_char
put_special_full c out h = rw h (rw (store_next out 0 b'\\') (rw (store_second_full out c)))

pub put_full : (c : ℕ) (out : Bytes) → put_char c (length out) (buffer out 0) ≡ none
unfolding put_char
put_full c out = rw (store_full out c) (rw (store_full out b'\\') (ground arith))

-- The part of the escaped name that `room` bytes take: whole characters, as long as two bytes
-- are free.
unfoldable pub kept : ℕ → Bytes → Bytes
kept zero s = []
kept (suc zero) s = []
kept (suc (suc room)) [] = []
kept (suc (suc room)) (c ∷ s) =
    let short = kept room s in
    let long = kept (suc room) s in if is_special c then b'\\' ∷ c ∷ short else c ∷ long

kept-nil : (room : ℕ) → kept room [] ≡ []
unfolding kept
kept-nil zero = refl
kept-nil (suc zero) = refl
kept-nil (suc (suc room)) = refl

-- What the loop of `config2json` leaves.
abbrev pub Leaves : Bytes → Bytes → ℕ → Type 0
Leaves src out room =
    (room' : ℕ) × (escape_device src (length out) (buffer out room)
      ≡ some (buffer (out ++ kept room src) room'))
    × (length (out ++ kept room src) + room' ≡ device_size)

stops :
    (src out : Bytes) (room : ℕ)
    → length out + room ≡ device_size
    → kept room src ≡ []
    → escape_device src (length out) (buffer out room) ≡ some (buffer out room)
    → Leaves src out room
stops src out room e k h = (room, rw k (simp append-nil h), rw k (simp append-nil e))

escape_special :
    (c room : ℕ) (src out : Bytes)
    → is_special c ≡ true
    → length out < device_size - 1
    → escape_device (c ∷ src) (length out) (buffer out (suc (suc room)))
      ≡ escape_device src (length out + 1 + 1) (buffer (out ++ b'\\' ∷ c ∷ []) room)
unfolding escape_device
escape_special c room src out h l = rw (lt→ltb _ _ l) (rw (put_special c room out h))

escape_plain :
    (c room : ℕ) (src out : Bytes)
    → is_special c ≡ false
    → length out < device_size - 1
    → escape_device (c ∷ src) (length out) (buffer out (suc room))
      ≡ escape_device src (length out + 1) (buffer (out ++ c ∷ []) room)
unfolding escape_device
escape_plain c room src out h l = rw (lt→ltb _ _ l) (rw (put_plain c room out h))

kept_special :
    (c room : ℕ) (src out : Bytes)
    → is_special c ≡ true
    → (out ++ b'\\' ∷ c ∷ []) ++ kept room src ≡ out ++ kept (suc (suc room)) (c ∷ src)
unfolding kept
kept_special c room src out h = rw h (simp append_assoc)

kept_plain :
    (c room : ℕ) (src out : Bytes)
    → is_special c ≡ false
    → (out ++ c ∷ []) ++ kept (suc room) src ≡ out ++ kept (suc (suc room)) (c ∷ src)
unfolding kept
kept_plain c room src out h = rw h (simp append_assoc)

-- A step of the loop, from what the rest of it leaves.
continues :
    (c : ℕ) (src out out' : Bytes) (room room' : ℕ)
    → length out + suc (suc room) ≡ device_size
    → escape_device (c ∷ src) (length out) (buffer out (suc (suc room)))
      ≡ escape_device src (length out') (buffer out' room')
    → out' ++ kept room' src ≡ out ++ kept (suc (suc room)) (c ∷ src)
    → Leaves src out' room'
    → Leaves (c ∷ src) out (suc (suc room))
continues c src out out' room room' e step k (r, p, q) =
    (r, step ∙ p ∙ ap (λ x. some (buffer x r)) k, rw (← k) q)

pub escape_device_lem :
    (src out : Bytes) (room : ℕ) → length out + room ≡ device_size → Leaves src out room
unfolding escape_device
escape_device_lem [] out room e = stops [] out room e (kept-nil room) refl
escape_device_lem (c ∷ src) out zero e =
    stops (c ∷ src) out 0 e (unfold kept in refl) (ground arith)
escape_device_lem (c ∷ src) out (suc zero) e =
    stops (c ∷ src) out 1 e (unfold kept in refl) (ground arith)
escape_device_lem (c ∷ src) out (suc (suc room)) e = elim (Bool-cases (is_special c)) [
  | inl h ↦
      let out' : Bytes = out ++ b'\\' ∷ c ∷ [] in
      let l : length out' ≡ length out + 1 + 1 =
        omega (arith, length-append {0} out (b'\\' ∷ c ∷ [])) in
      continues c src out out' room room e
        (escape_special c room src out h (omega arith)
          ∙ ap (λ n. escape_device src n (buffer out' room)) (sym l))
        (kept_special c room src out h) (escape_device_lem src out' room (omega arith))
  | inr h ↦
      let out' : Bytes = out ++ c ∷ [] in
      let l : length out' ≡ length out + 1 = length-snoc out c in
      continues c src out out' room (suc room) e
        (escape_plain c (suc room) src out h (omega arith)
          ∙ ap (λ n. escape_device src n (buffer out' (suc room))) (sym l))
        (kept_plain c room src out h) (escape_device_lem src out' (suc room) (omega arith))
]

-- The part that fits is the whole escaped name if that leaves a byte for the NUL.
pub kept-escape : (room : ℕ) (src : Bytes) → length (escape src) < room → kept room src ≡ escape src
unfolding kept escape
kept-escape zero src h = absurd (omega arith)
kept-escape (suc zero) [] h = refl
kept-escape (suc zero) (c ∷ src) h = ground arith
kept-escape (suc (suc room)) [] h = refl
kept-escape (suc (suc room)) (c ∷ src) h =
    ground (arith, kept-escape room src, kept-escape (suc room) src)

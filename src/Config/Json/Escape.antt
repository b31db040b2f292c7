-- ===== src/Config/Json/Escape.antt =====
-- What the two escaping loops leave in the buffer.
use capptpl.Base.{
  Bool, Bytes, Lacks, Option, [], arith, false, if◌then◌else◌, length, none, refl, replicate, some,
  suc, true, ℕ, ◌++◌, ◌==◌, ◌∷◌, ◌≡◌,
}
use capptpl.Config.Json.{is_special, read_text, store}

-- The escaped text, with no bound.
unfoldable pub escape : Bytes → Bytes
escape [] = []
escape (c ∷ s) = if is_special c then b'\\' ∷ c ∷ escape s else c ∷ escape s

prepend : ℕ → Option (Bytes × Bytes) → Option (Bytes × Bytes)
prepend c none = none
prepend c (some (t, rest)) = some (c ∷ t, rest)

-- A reader of a quoted text behind its opening quote: the text and what follows the closing one.
-- The first argument says that a backslash has just been read.
pub read_quoted : Bool → Bytes → Option (Bytes × Bytes)
unfolding prepend
read_quoted pending [] = none
read_quoted true (c ∷ s) = prepend c (read_quoted false s)
read_quoted false (c ∷ s) =
    let escaped = read_quoted true s in
    let plain = read_quoted false s in
    if c == b'"' then some ([], s) else if c == b'\\' then escaped else prepend c plain

-- A quoted reader gets the text back from its escaped form, and stops at the closing quote.
pub read_quoted-escape :
    (s rest : Bytes) → read_quoted false (escape s ++ b'"' ∷ rest) ≡ some (s, rest)
unfolding escape read_quoted is_special
read_quoted-escape [] rest = refl
read_quoted-escape (c ∷ s) rest = ground (arith, read_quoted-escape s rest)

-- The buffer once `out` has been written from its start.
abbrev pub buffer : Bytes → ℕ → Bytes
buffer out room = out ++ replicate room 0

pub store_next :
    (out : Bytes) (room c : ℕ)
    → store (buffer out (suc room)) (length out) c ≡ some (buffer (out ++ c ∷ []) room)
unfolding store
store_next [] room c = refl
store_next (b ∷ out) room c = rw (store_next out room c)

pub store_full : (out : Bytes) (c : ℕ) → store (buffer out 0) (length out) c ≡ none
unfolding store
store_full [] c = refl
store_full (b ∷ out) c = rw (store_full out c)

pub read_text-buffer :
    (out : Bytes) (room : ℕ) → Lacks 0 out → read_text (buffer out (suc room)) ≡ some out
unfolding read_text
read_text-buffer [] room h = refl
read_text-buffer (c ∷ out) room (h, hs) = rw (read_text-buffer out room hs) (ground arith)

pub read_text_full : (out : Bytes) → Lacks 0 out → read_text (buffer out 0) ≡ none
unfolding read_text
read_text_full [] h = refl
read_text_full (c ∷ out) (h, hs) = rw (read_text_full out hs) (ground arith)

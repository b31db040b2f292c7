-- ===== src/Hex/Dump/Steps.antt =====
-- The bytes of a row of `dump_hex`, one by one.
use capptpl.Base.{
  Bytes, Lacks, [], ap, append-nil, append_assoc, arith, c_str_at_nul, codes, if◌then◌else◌, length,
  length-append, length-map, ltb, map, refl, replicate, set, suc, sym, ℕ, ◌%◌, ◌*◌, ◌++◌, ◌+◌, ◌-◌,
  ◌<◌, ◌==◌, ◌||◌, ◌∙◌, ◌∷◌, ◌≡◌, ◌≢◌,
}
use capptpl.Hex.Dump.{
  address_text, ascii_text, dump_loop, hex_cell, last_text, next_line, padded, row_text, visible,
}

-- The address, if a row begins at the column `j`.
unfoldable pub address_at : ℕ → ℕ → Bytes
address_at k j = if j == 0 then padded (16 * k) ++ codes "  " else []

-- What `line` is at the column `j` of the row `k`.
unfoldable pub line_at : ℕ → ℕ → ℕ
line_at k j = if j == 0 then 16 * k else 16 * k + 16

pub address_lem : (k j : ℕ) → j < 16 → address_text (16 * k + j) (line_at k j) ≡ address_at k j
unfolding address_text address_at line_at
address_lem k j h = let col : (16 * k + j) % 16 ≡ j = omega arith in ground (arith, col)

line_lem : (k j : ℕ) → j < 16 → next_line (16 * k + j) (line_at k j) ≡ line_at k (j + 1)
unfolding next_line line_at
line_lem k j h = let col : (16 * k + j) % 16 ≡ j = omega arith in ground (arith, col)

-- Inside a row.
mid_text :
    (k j size : ℕ) (ascii : Bytes)
    → j < 15
    → 16 * k + j + 1 < size
    → row_text size (16 * k + j) ascii ≡ (if j == 7 || j == 15 then codes " " else [])
unfolding row_text
mid_text k j size ascii h l =
    let col : (16 * k + j + 1) % 16 ≡ j + 1 = omega arith in
    let half : (16 * k + j + 1) % 8 ≡ (j + 1) % 8 = omega arith in ground (arith, col, half)

pub set-append :
    (xs : Bytes) (x v : ℕ) (more : Bytes) → set (xs ++ x ∷ more) (length xs) v ≡ xs ++ v ∷ more
set-append [] x v more = refl
set-append (y ∷ xs) x v more = ap (λ l. y ∷ l) (set-append xs x v more)

pub map-snoc :
    (seen : Bytes) (b : ℕ) (more : Bytes)
    → map visible seen ++ visible b ∷ more ≡ map visible (seen ++ b ∷ []) ++ more
map-snoc [] b more = refl
map-snoc (c ∷ seen) b more = ap (λ l. visible c ∷ l) (map-snoc seen b more)

-- What `ascii` holds behind the byte `b`.
pub stored :
    (k : ℕ) (seen : Bytes) (x b : ℕ) (more : Bytes)
    → length seen < 16
    → set (map visible seen ++ x ∷ more) ((16 * k + length seen) % 16) (visible b)
      ≡ map visible (seen ++ b ∷ []) ++ more
stored k seen x b more h =
    let col : (16 * k + length seen) % 16 ≡ length (map visible seen) =
      omega (arith, length-map seen visible) in
    rw col (set-append (map visible seen) x (visible b) more) ∙ map-snoc seen b more

-- One byte inside a row.
pub mid_step :
    (k size : ℕ) (seen : Bytes) (x b : ℕ) (more bs : Bytes)
    → length seen < 15
    → 16 * k + length seen + 1 < size
    → dump_loop size
        (16 * k + length seen)
        (line_at k (length seen))
        (map visible seen ++ x ∷ more)
        (b ∷ bs)
      ≡ address_at k (length seen)
        ++ hex_cell b
        ++ (if length seen == 7 || length seen == 15 then codes " " else [])
        ++ dump_loop size
            (16 * k + length (seen ++ b ∷ []))
            (line_at k (length (seen ++ b ∷ [])))
            (map visible (seen ++ b ∷ []) ++ more)
            bs
unfolding dump_loop
mid_step k size seen x b more bs h l =
    let j = length seen in
    let next : length (seen ++ b ∷ []) ≡ j + 1 = omega (arith, length-append {0} seen (b ∷ [])) in
    let at : 16 * k + (j + 1) ≡ 16 * k + j + 1 = omega arith in
    rw (
      address_lem k j (omega arith),
      stored k seen x b more (omega arith),
      mid_text k j size (map visible (seen ++ b ∷ []) ++ more) h l,
      line_lem k j (omega arith),
      next,
      at,
    )

visible-ne : (b : ℕ) → visible b ≢ 0
unfolding visible
visible-ne b = ground arith

visible-Lacks : (bs : Bytes) → Lacks 0 (map visible bs)
visible-Lacks [] = tt
visible-Lacks (b ∷ bs) = (visible-ne b, visible-Lacks bs)

pub shown :
    (bs rest : Bytes)
    → ascii_text (map visible bs ++ 0 ∷ rest) ≡ codes "|  " ++ map visible bs ++ codes " \n"
unfolding ascii_text
shown bs rest =
    ap (λ t. codes "|  " ++ t ++ codes " \n")
      (c_str_at_nul (map visible bs) rest (visible-Lacks bs))

-- The end of a full row.
full_text :
    (k j size : ℕ) (ascii : Bytes)
    → j ≡ 15
    → row_text size (16 * k + j) ascii ≡ codes " " ++ ascii_text ascii
unfolding row_text
full_text k j size ascii h =
    let col : (16 * k + j + 1) % 16 ≡ 0 = omega arith in
    let half : (16 * k + j + 1) % 8 ≡ 0 = omega arith in ground (arith, col, half)

-- The spaces that fill up a row of so many bytes.
unfoldable pub fill : ℕ → ℕ
fill n = if ltb n 8 then suc (suc (3 * (16 - n))) else suc (3 * (16 - n))

-- The end of a row that is not full.
pub short_text :
    (k j size : ℕ) (ascii : Bytes)
    → j < 15
    → size ≡ 16 * k + j + 1
    → row_text size (16 * k + j) ascii
      ≡ ((if j == 7 || j == 15 then codes " " else []) ++ replicate (fill (j + 1)) b' ')
        ++ ascii_text (set ascii ((16 * k + (j + 1)) % 16) 0)
unfolding row_text last_text fill
short_text k j size ascii h l =
    let col : (16 * k + j + 1) % 16 ≡ j + 1 = omega arith in
    let half : (16 * k + j + 1) % 8 ≡ (j + 1) % 8 = omega arith in
    let at : 16 * k + (j + 1) ≡ 16 * k + j + 1 = omega arith in ground (arith, col, half, at, l)

-- The last byte of a full row.
pub full_step :
    (k size : ℕ) (seen : Bytes) (x b : ℕ) (bs : Bytes)
    → length seen ≡ 15
    → dump_loop size
        (16 * k + length seen)
        (line_at k (length seen))
        (map visible seen ++ x ∷ 0 ∷ [])
        (b ∷ bs)
      ≡ hex_cell b
        ++ codes " "
        ++ ascii_text (map visible (seen ++ b ∷ []) ++ 0 ∷ [])
        ++ dump_loop size
            (16 * (k + 1))
            (line_at (k + 1) 0)
            (map visible (seen ++ b ∷ []) ++ 0 ∷ [])
            bs
unfolding dump_loop address_at line_at hex_cell
full_step k size seen x b bs h =
    let j = length seen in
    let at : 16 * k + j + 1 ≡ 16 * (k + 1) = omega arith in
    let line : next_line (16 * k + j) (line_at k j) ≡ 16 * (k + 1) =
      line_lem k j (omega arith) ∙ ground (arith, h) in
    let address : address_text (16 * k + j) (line_at k j) ≡ [] =
      address_lem k j (omega arith) ∙ ground (arith, h) in
    rw (
      address,
      stored k seen x b (0 ∷ []) (omega arith),
      full_text k j size (map visible (seen ++ b ∷ []) ++ 0 ∷ []) h,
      line,
      at,
      append_assoc,
    )

-- The NUL that ends the text of a row that is not full.
closed_at :
    (k : ℕ) (all : Bytes) (y : ℕ) (more : Bytes)
    → length all < 16
    → set (map visible all ++ y ∷ more) ((16 * k + length all) % 16) 0 ≡ map visible all ++ 0 ∷ more
closed_at k all y more h =
    let col : (16 * k + length all) % 16 ≡ length (map visible all) =
      omega (arith, length-map all visible) in
    rw col (set-append (map visible all) y 0 more)

short_end :
    (k size : ℕ) (seen : Bytes) (y b : ℕ) (more : Bytes)
    → length seen < 15
    → size ≡ 16 * k + length seen + 1
    → row_text size (16 * k + length seen) (map visible (seen ++ b ∷ []) ++ y ∷ more)
      ≡ ((if length seen == 7 || length seen == 15 then codes " " else [])
          ++ replicate (fill (length seen + 1)) b' ')
        ++ (codes "|  " ++ map visible (seen ++ b ∷ []) ++ codes " \n")
short_end k size seen y b more h e =
    let next : length (seen ++ b ∷ []) ≡ length seen + 1 =
      omega (arith, length-append {0} seen (b ∷ [])) in
    let text =
      ap (λ n. set (map visible (seen ++ b ∷ []) ++ y ∷ more) ((16 * k + n) % 16) 0) (sym next)
      ∙ closed_at k (seen ++ b ∷ []) y more (omega arith) in
    short_text k (length seen) size (map visible (seen ++ b ∷ []) ++ y ∷ more) h e
    ∙ ap
        (λ t.
          ((if length seen == 7 || length seen == 15 then codes " " else [])
            ++ replicate (fill (length seen + 1)) b' ')
          ++ t)
        (ap ascii_text text ∙ shown (seen ++ b ∷ []) more)

-- The last byte of a row that is not full.
pub short_step :
    (k size : ℕ) (seen : Bytes) (x y b : ℕ) (more : Bytes)
    → length seen < 15
    → size ≡ 16 * k + length seen + 1
    → dump_loop size
        (16 * k + length seen)
        (line_at k (length seen))
        (map visible seen ++ x ∷ y ∷ more)
        (b ∷ [])
      ≡ address_at k (length seen)
        ++ hex_cell b
        ++ (((if length seen == 7 || length seen == 15 then codes " " else [])
              ++ replicate (fill (length seen + 1)) b' ')
            ++ (codes "|  " ++ map visible (seen ++ b ∷ []) ++ codes " \n"))
unfolding dump_loop
short_step k size seen x y b more h e = rw (
  address_lem k (length seen) (omega arith),
  stored k seen x b (y ∷ more) (omega arith),
  short_end k size seen y b more h e,
  append-nil,
)

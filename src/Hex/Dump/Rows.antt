-- ===== src/Hex/Dump/Rows.antt =====
-- `dump_hex` row by row.
use capptpl.Base.{
  Bytes, [], ap, append-nil, append_assoc, arith, codes, drop, if◌then◌else◌, length, length-append,
  map, replicate, suc, sym, take, zero, ℕ, ◌*◌, ◌++◌, ◌+◌, ◌-◌, ◌<◌, ◌==◌, ◌||◌, ◌∙◌, ◌∷◌, ◌≡◌,
}
use capptpl.Hex.Dump.{ascii_text, dump_loop, hex_cell, padded, visible}
use capptpl.Hex.Dump.Steps.{address_at, fill, full_step, line_at, mid_step, short_step}

-- Each byte as two digits and a space, with one more space behind the 8th and the 16th of a row.
unfoldable pub cells : ℕ → Bytes → Bytes
cells j [] = []
cells j (b ∷ bs) = hex_cell b ++ (if j == 7 || j == 15 then codes " " else []) ++ cells (j + 1) bs

-- A text filled up with spaces.
unfoldable pub justified : ℕ → Bytes → Bytes
justified width text = text ++ replicate (width - length text) b' '

-- The row `k`, of at most 16 bytes.
unfoldable pub row : ℕ → Bytes → Bytes
row k bs =
    padded (16 * k)
    ++ codes "  "
    ++ justified 50 (cells 0 bs)
    ++ codes "|  "
    ++ map visible bs
    ++ codes " \n"

-- So many rows, from the row `k` on.
unfoldable pub rows : ℕ → ℕ → Bytes → Bytes
rows k zero bs = []
rows k (suc n) bs = row k (take 16 bs) ++ rows (k + 1) n (drop 16 bs)

-- What a full row of `all` leads to, from its text on.
abbrev pub behind : ℕ → ℕ → Bytes → Bytes → Bytes
behind k size all more =
    ascii_text (map visible all ++ 0 ∷ [])
    ++ dump_loop size (16 * (k + 1)) (line_at (k + 1) 0) (map visible all ++ 0 ∷ []) more

regroup : (a c s v t : Bytes) → a ++ c ++ s ++ (v ++ t) ≡ a ++ (c ++ s ++ v) ++ t
regroup a c s v t = simp append_assoc

-- Only a row's first byte has an address before it.
no_address : (k j : ℕ) → address_at k (j + 1) ≡ []
unfolding address_at
no_address k j = ground arith

last_cell : (k j b : ℕ) → j ≡ 15 → address_at k j ++ cells j (b ∷ []) ≡ hex_cell b ++ codes " "
unfolding address_at cells
last_cell k j b h = rw h (append-nil (hex_cell b ++ codes " "))

pub full_row :
    (k size : ℕ) (seen junk : Bytes) (bs more : Bytes)
    → length seen + length bs ≡ 16
    → 0 < length bs
    → length junk ≡ length bs
    → size ≡ 16 * k + 16 + length more
    → dump_loop size
        (16 * k + length seen)
        (line_at k (length seen))
        (map visible seen ++ (junk ++ 0 ∷ []))
        (bs ++ more)
      ≡ address_at k (length seen) ++ cells (length seen) bs ++ behind k size (seen ++ bs) more
unfolding cells
full_row k size seen junk [] more e g l h = elim g [ ]
full_row k size seen [] (b ∷ bs) more e g l h = absurd (omega arith)
full_row k size seen (x ∷ y ∷ junk) (b ∷ []) more e g l h = absurd (omega arith)
full_row k size seen (x ∷ []) (b ∷ b' ∷ bs) more e g l h = absurd (omega arith)
full_row k size seen (x ∷ []) (b ∷ []) more e g l h =
    full_step k size seen x b more (omega arith)
    ∙ append_assoc (hex_cell b ++ codes " ") _ _
    ∙ ap (λ t. t ++ behind k size (seen ++ b ∷ []) more)
        (sym (last_cell k (length seen) b (omega arith)))
full_row k size seen (x ∷ y ∷ junk) (b ∷ b' ∷ bs) more e g l h =
    let j = length seen in
    let seen' = seen ++ b ∷ [] in
    let space = if j == 7 || j == 15 then codes " " else [] in
    let next : length seen' ≡ j + 1 = omega (arith, length-append {0} seen (b ∷ [])) in
    let rest =
      full_row k size seen' (y ∷ junk) (b' ∷ bs) more (omega arith) (omega arith) (omega arith) h in
    let tidy : address_at k (length seen')
          ++ cells (length seen') (b' ∷ bs)
          ++ behind k size (seen' ++ b' ∷ bs) more
        ≡ cells (j + 1) (b' ∷ bs) ++ behind k size (seen ++ b ∷ b' ∷ bs) more =
      rw (next, no_address k j, append_assoc seen (b ∷ []) (b' ∷ bs)) in
    mid_step k size seen x b (y ∷ (junk ++ 0 ∷ [])) (b' ∷ (bs ++ more)) (omega arith)
      (omega (arith, length-append {0} bs more))
    ∙ ap (λ t. address_at k j ++ hex_cell b ++ space ++ t) (rest ∙ tidy)
    ∙ regroup (address_at k j) (hex_cell b) space (cells (j + 1) (b' ∷ bs))
        (behind k size (seen ++ b ∷ b' ∷ bs) more)

-- How a row of `n` bytes ends that is not full.
abbrev pub ending : ℕ → Bytes → Bytes
ending n all = replicate (fill n) b' ' ++ (codes "|  " ++ map visible all ++ codes " \n")

regroup_last : (a c s f t : Bytes) → a ++ c ++ (s ++ f ++ t) ≡ a ++ (c ++ s ++ []) ++ (f ++ t)
regroup_last a c s f t = simp (append_assoc, append-nil)

pub short_row :
    (k size : ℕ) (seen junk : Bytes) (bs : Bytes)
    → length seen + length bs < 16
    → 0 < length bs
    → length bs < length junk
    → size ≡ 16 * k + (length seen + length bs)
    → dump_loop size (16 * k + length seen) (line_at k (length seen)) (map visible seen ++ junk) bs
      ≡ address_at k (length seen)
        ++ cells (length seen) bs
        ++ ending (length seen + length bs) (seen ++ bs)
unfolding cells
short_row k size seen junk [] e g l h = elim g [ ]
short_row k size seen [] (b ∷ bs) e g l h = absurd (omega arith)
short_row k size seen (x ∷ []) (b ∷ bs) e g l h = absurd (omega arith)
short_row k size seen (x ∷ y ∷ junk) (b ∷ []) e g l h =
    let j = length seen in
    let space = if j == 7 || j == 15 then codes " " else [] in
    short_step k size seen x y b junk (omega arith) (omega arith)
    ∙ regroup_last (address_at k j) (hex_cell b) space (replicate (fill (j + 1)) b' ')
        (codes "|  " ++ map visible (seen ++ b ∷ []) ++ codes " \n")
short_row k size seen (x ∷ y ∷ junk) (b ∷ b' ∷ bs) e g l h =
    let j = length seen in
    let seen' = seen ++ b ∷ [] in
    let space = if j == 7 || j == 15 then codes " " else [] in
    let next : length seen' ≡ j + 1 = omega (arith, length-append {0} seen (b ∷ [])) in
    let rest =
      short_row k size seen' (y ∷ junk) (b' ∷ bs) (omega arith) (omega arith) (omega arith)
        (omega arith) in
    let count : j + 1 + suc (length bs) ≡ j + suc (suc (length bs)) = omega arith in
    let tidy : address_at k (length seen')
          ++ cells (length seen') (b' ∷ bs)
          ++ ending (length seen' + length (b' ∷ bs)) (seen' ++ b' ∷ bs)
        ≡ cells (j + 1) (b' ∷ bs) ++ ending (j + length (b ∷ b' ∷ bs)) (seen ++ b ∷ b' ∷ bs) =
      rw (next, count, no_address k j, append_assoc seen (b ∷ []) (b' ∷ bs)) in
    mid_step k size seen x b (y ∷ junk) (b' ∷ bs) (omega arith) (omega arith)
    ∙ ap (λ t. address_at k j ++ hex_cell b ++ space ++ t) (rest ∙ tidy)
    ∙ regroup (address_at k j) (hex_cell b) space (cells (j + 1) (b' ∷ bs))
        (ending (j + length (b ∷ b' ∷ bs)) (seen ++ b ∷ b' ∷ bs))

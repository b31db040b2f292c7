-- ===== src/Hex/Dump/Table.antt =====
-- The text of `dump_hex` is a table of rows.
use capptpl.Base.{
  Bool-cases, Bytes, [], ap, append-nil, append_assoc, arith, codes, drop, if◌then◌else◌, inl, inr,
  length, length-append, length-drop, length-map, length-take, ltb, ltb→lt, map, refl, replicate,
  suc, sym, take, take-all, take-append-drop, zero, ℕ, ◌*◌, ◌++◌, ◌+◌, ◌-◌, ◌/◌, ◌<◌, ◌==◌, ◌||◌,
  ◌∙◌, ◌∷◌, ◌≡◌, ◌≤◌,
}
use capptpl.Hex.Dump.{dump_hex, dump_loop, hex_cell, padded, visible}
use capptpl.Hex.Dump.Rows.{behind, cells, full_row, justified, row, rows, short_row}
use capptpl.Hex.Dump.Steps.{address_at, fill, line_at, shown}

-- The length of the cells of a row that begins at the column `j`.
extra : ℕ → ℕ
extra n = if ltb n 8 then 0 else if ltb n 16 then 1 else 2

length-hex_cell : (b : ℕ) → length (hex_cell b) ≡ 3
unfolding hex_cell
length-hex_cell b = refl

space_length :
    (j : ℕ)
    → j < 16
    → length (if j == 7 || j == 15 then codes " " else []) + extra j ≡ extra (j + 1)
unfolding extra
space_length j h = ground arith

length-cells :
    (j : ℕ) (bs : Bytes)
    → j + length bs ≤ 16
    → length (cells j bs) + 3 * j + extra j ≡ 3 * (j + length bs) + extra (j + length bs)
unfolding cells
length-cells j [] h = let same : j ≡ j + 0 = omega arith in omega (arith, ap extra same)
length-cells j (b ∷ bs) h =
    let space = if j == 7 || j == 15 then codes " " else [] in
    let same : j + 1 + length bs ≡ j + suc (length bs) = omega arith in
    let rest : length (cells (j + 1) bs) + 3 * (j + 1) + extra (j + 1)
        ≡ 3 * (j + suc (length bs)) + extra (j + suc (length bs)) =
      length-cells (j + 1) bs (omega arith) ∙ rw same in
    omega (
      arith,
      rest,
      space_length j (omega arith),
      length-hex_cell b,
      length-append {0} (hex_cell b ++ space) (cells (j + 1) bs),
      length-append {0} (hex_cell b) space,
    )

row_length : (bs : Bytes) → length bs ≤ 16 → length (cells 0 bs) ≡ 3 * length bs + extra (length bs)
unfolding extra
row_length bs h =
    let same : 0 + length bs ≡ length bs = omega arith in
    omega (arith, length-cells 0 bs (omega arith), ap extra same)

-- A row of fewer than 16 bytes is filled up to 50 characters, and a full one has as many.
row_filled :
    (bs : Bytes)
    → length bs < 16
    → justified 50 (cells 0 bs) ≡ cells 0 bs ++ replicate (fill (length bs)) b' '
unfolding justified fill extra
row_filled bs h =
    let size : 50 - length (cells 0 bs) ≡ fill (length bs) =
      ground (arith, row_length bs (omega arith)) in
    rw size

row_full : (bs : Bytes) → length bs ≡ 16 → justified 50 (cells 0 bs) ≡ cells 0 bs
unfolding justified extra
row_full bs h =
    let size : 50 - length (cells 0 bs) ≡ 0 = ground (arith, row_length bs (omega arith)) in
    rw size (append-nil (cells 0 bs))

regroup_full :
    (address : Bytes) (bs more : Bytes) (k size : ℕ)
    → length bs ≡ 16
    → (address ++ codes "  ") ++ cells 0 bs ++ behind k size bs more
      ≡ address
        ++ codes "  "
        ++ justified 50 (cells 0 bs)
        ++ codes "|  "
        ++ map visible bs
        ++ codes " \n"
        ++ dump_loop size (16 * (k + 1)) (line_at (k + 1) 0) (map visible bs ++ 0 ∷ []) more
regroup_full address bs more k size h = rw (row_full bs h, shown bs []) (simp append_assoc)

-- The loop prints a full row and goes on behind it, or prints the last row and ends.
loop_full :
    (k size : ℕ) (junk bs more : Bytes)
    → length bs ≡ 16
    → length junk ≡ 16
    → size ≡ 16 * k + 16 + length more
    → dump_loop size (16 * k) (line_at k 0) (junk ++ 0 ∷ []) (bs ++ more)
      ≡ row k bs
        ++ dump_loop size (16 * (k + 1)) (line_at (k + 1) 0) (map visible bs ++ 0 ∷ []) more
unfolding row address_at
loop_full k size junk bs more h l e =
    let start : 16 * k ≡ 16 * k + 0 = omega arith in
    ap (λ i. dump_loop size i (line_at k 0) (junk ++ 0 ∷ []) (bs ++ more)) start
    ∙ full_row k size [] junk bs more (omega arith) (omega arith) (omega arith) e
    ∙ regroup_full (padded (16 * k)) bs more k size h

loop_last :
    (k size : ℕ) (junk bs : Bytes)
    → 0 < length bs
    → length bs < 16
    → length junk ≡ 16
    → size ≡ 16 * k + length bs
    → dump_loop size (16 * k) (line_at k 0) (junk ++ 0 ∷ []) bs ≡ row k bs
unfolding row address_at
loop_last k size junk bs g h l e =
    let count : 0 + length bs ≡ length bs = omega arith in
    let start : 16 * k ≡ 16 * k + 0 = omega arith in
    ap (λ i. dump_loop size i (line_at k 0) (junk ++ 0 ∷ []) bs) start
    ∙ short_row k size [] (junk ++ 0 ∷ []) bs (omega arith) g
        (omega (arith, length-append {0} junk (0 ∷ []))) (omega arith)
    ∙ rw (count, row_filled bs h, row) (simp append_assoc)

no_rows : (k n : ℕ) (bs : Bytes) → n ≡ 0 → rows k n bs ≡ []
unfolding rows
no_rows k n bs h = rw h

-- The loop from the start of the row `k` on, where `n` rows are to come.
table :
    (n k size : ℕ) (junk bs : Bytes)
    → length junk ≡ 16
    → size ≡ 16 * k + length bs
    → length bs ≤ 16 * n
    → 16 * n < length bs + 16
    → dump_loop size (16 * k) (line_at k 0) (junk ++ 0 ∷ []) bs ≡ rows k n bs
unfolding rows dump_loop
table zero k size junk [] j e h g = refl
table zero k size junk (b ∷ bs) j e h g = absurd (omega arith)
table (suc n) k size junk bs j e h g = elim (Bool-cases (ltb (length bs) 16)) [
  | inl small ↦
      loop_last k size junk bs (omega arith) (ltb→lt (length bs) 16 small) j e
      ∙ rw (
        take-all 16 bs (omega (arith, ltb→lt (length bs) 16 small)),
        no_rows (k + 1) n (drop 16 bs) (omega (arith, ltb→lt (length bs) 16 small)),
        append-nil,
      )
  | inr large ↦
      let front = take 16 bs in
      let back = drop 16 bs in
      let enough : 16 ≤ length bs = ground (arith, large) in
      let full : length front ≡ 16 = omega (arith, length-take 16 bs) in
      let less : length back ≡ length bs - 16 = length-drop 16 bs in
      ap (dump_loop size (16 * k) (line_at k 0) (junk ++ 0 ∷ [])) (sym (take-append-drop 16 bs))
      ∙ loop_full k size junk front back full j (omega arith)
      ∙ ap (λ t. row k front ++ t)
          (table n (k + 1) size (map visible front) back (omega (arith, length-map front visible))
            (omega arith) (omega arith) (omega arith))
]

-- What `dump_hex` prints, whatever `ascii` holds at the start: a row for every 16 bytes and for the
-- rest, each with its address, its bytes filled up to 50 characters, and its visible characters.
pub dump_hex-rows :
    (junk bytes : Bytes)
    → length junk ≡ 16
    → dump_hex junk bytes ≡ rows 0 ((length bytes + 15) / 16) bytes
unfolding dump_hex line_at
dump_hex-rows junk bytes j =
    table ((length bytes + 15) / 16) 0 (length bytes) junk bytes j (omega arith) (omega arith)
      (omega arith)

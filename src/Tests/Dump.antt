-- ===== src/Tests/Dump.antt =====
-- `dump_hex` at the start of the example in its comment.
use capptpl.Base.{Bytes, [], c_str, codes, length, refl, replicate, ◌++◌, ◌+◌, ◌/◌, ◌∷◌, ◌≡◌}
use capptpl.Base.Chars.{decimal}
use capptpl.Hex.Dump.{
  address_text, ascii_text, dump_hex, dump_loop, hex_cell, hex_char, last_text, next_line, padded,
  row_text, visible,
}
use capptpl.Hex.Dump.Rows.{rows}
use capptpl.Hex.Dump.Table.{dump_hex-rows}

abbrev junk : Bytes
junk = replicate 16 b'?'

-- One full row and a row of two bytes.
abbrev sample : Bytes
sample =
    codes "ABC" ++ 128 ∷ 9 ∷ codes "@ABC" ++ 128 ∷ 9 ∷ codes "@ABC" ++ 128 ∷ 9 ∷ codes "@" ++ []

sample_text :
    dump_hex junk sample
    ≡ codes "0000  41 42 43 80 09 40 41 42  43 80 09 40 41 42 43 80  |  ABC..@ABC..@ABC. \n"
      ++ codes "0016  09 40                                             |  .@ \n"
unfolding dump_hex dump_loop address_text next_line row_text last_text ascii_text visible hex_cell
    hex_char padded decimal c_str
sample_text = refl

dump_hex-rows_example : dump_hex junk sample ≡ rows 0 ((length sample + 15) / 16) sample
dump_hex-rows_example = dump_hex-rows junk sample refl

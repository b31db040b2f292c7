-- ===== src/Hex/Dump.antt =====
-- lib/hex.c: `dump_hex`, which prints bytes in rows of 16. The text that it prints is the result.
pub mod Table
pub mod Steps
pub mod Rows
use capptpl.Base.{
  Bytes, [], c_str, codes, if◌then◌else◌, leb, length, ltb, replicate, set, ℕ, ◌%◌, ◌&&◌, ◌*◌, ◌++◌,
  ◌+◌, ◌-◌, ◌/◌, ◌==◌, ◌||◌, ◌∷◌,
}
use capptpl.Base.Chars.{decimal}

-- `%04zu`
unfoldable pub padded : ℕ → Bytes
padded n = replicate (4 - length (decimal n)) b'0' ++ decimal n

-- A digit of `%X`.
unfoldable pub hex_char : ℕ → ℕ
hex_char n = if ltb n 10 then b'0' + n else b'A' + (n - 10)

-- `%02X ` of a byte.
unfoldable pub hex_cell : ℕ → Bytes
hex_cell b = hex_char (b / 16) ∷ hex_char (b % 16) ∷ b' ' ∷ []

-- What stands for a byte in `ascii`.
unfoldable pub visible : ℕ → ℕ
visible b = if leb b' ' b && leb b b'~' then b else b'.'

-- `printf("|  %s \n", ascii)`
unfoldable pub ascii_text : Bytes → Bytes
ascii_text ascii = codes "|  " ++ c_str ascii ++ codes " \n"

unfoldable pub address_text : ℕ → ℕ → Bytes
address_text i line = if i % 16 == 0 then padded line ++ codes "  " else []

unfoldable pub next_line : ℕ → ℕ → ℕ
next_line i line = if i % 16 == 0 then line + 16 else line

-- The last row, where it is not full; the loop over `j` prints three spaces for each missing byte.
unfoldable pub last_text : ℕ → Bytes → Bytes
last_text i ascii =
    (if leb ((i + 1) % 16) 8 then codes " " else [])
    ++ replicate (3 * (16 - (i + 1) % 16)) b' '
    ++ ascii_text (set ascii ((i + 1) % 16) 0)

-- What is printed behind the byte `i`.
unfoldable pub row_text : ℕ → ℕ → Bytes → Bytes
row_text size i ascii =
    if (i + 1) % 8 == 0 || i + 1 == size
    then codes " "
      ++ (if (i + 1) % 16 == 0
          then ascii_text ascii
          else if i + 1 == size
          then last_text i ascii
          else [])
    else []

-- The loop from the byte `i` on; `ascii` keeps what it held in the row before.
unfoldable pub dump_loop : ℕ → ℕ → ℕ → Bytes → Bytes → Bytes
dump_loop size i line ascii [] = []
dump_loop size i line ascii (b ∷ bs) =
    let row = set ascii (i % 16) (visible b) in
    address_text i line
    ++ hex_cell b
    ++ row_text size i row
    ++ dump_loop size (i + 1) (next_line i line) row bs

-- `junk` is what the first 16 bytes of `ascii` hold at the start.
unfoldable pub dump_hex : Bytes → Bytes → Bytes
dump_hex junk bytes = dump_loop (length bytes) 0 0 (junk ++ 0 ∷ []) bytes

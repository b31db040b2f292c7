-- ===== src/Tests/Hex.antt =====
-- `bin2hex` and `hex2bin` at concrete inputs.
use capptpl.Base.{
  All, Bytes, [], ap, arith, codes, false, length, map, none, refl, some, true, ◌*◌, ◌<◌, ◌↔◌, ◌∷◌,
  ◌≡◌,
}
use capptpl.Hex.{bin2hex, decode_loop, decode_pair, hex2bin, hexchr2bin}
use capptpl.Hex.Decode.{
  IsHexDigit, bin2hex-eq-none_iff, capital, hex2bin-bin2hex, hex2bin_complete, hex2bin_sound,
  hex2bin-Decodes, Decodes,
}

hex2bin-bin2hex_example :
    (text : Bytes) × (bin2hex true (0 ∷ 127 ∷ 74 ∷ []) ≡ some text)
    × (length text ≡ 2 * 3)
    × (hex2bin text ≡ (3, 0 ∷ 127 ∷ 74 ∷ []))
hex2bin-bin2hex_example = hex2bin-bin2hex true (0 ∷ 127 ∷ 74 ∷ []) (omega arith)

bin2hex-eq-none_iff_example :
    (bin2hex true (65 ∷ 200 ∷ []) ≡ none) ↔ ¬ All (λ b. b < 128) (65 ∷ 200 ∷ [])
bin2hex-eq-none_iff_example = bin2hex-eq-none_iff (65 ∷ 200 ∷ [])

reads_41 : hex2bin (codes "41fF") ≡ (2, 0x41 ∷ 0xff ∷ [])
unfolding hex2bin decode_loop decode_pair hexchr2bin
reads_41 = refl

capitals_and_small :
    (length (codes "41fF") ≡ 2 * (hex2bin (codes "41fF")).0)
    × All IsHexDigit (codes "41fF")
    × (bin2hex false (hex2bin (codes "41fF")).1 ≡ some (map capital (codes "41fF")))
capitals_and_small =
    hex2bin_sound (codes "41fF") (λ e. absurd (omega (arith, e, ap (λ p. p.0) reads_41)))

four_digits : 2 * (hex2bin (codes "0aF9")).0 ≡ length (codes "0aF9")
four_digits = hex2bin_complete (codes "0aF9") (omega arith) (omega arith)

hex2bin-Decodes_example : Decodes (codes "41fF") (hex2bin (codes "41fF"))
hex2bin-Decodes_example = hex2bin-Decodes (codes "41fF")

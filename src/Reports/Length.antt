-- ===== src/Reports/Length.antt =====
-- How long the text of `stats_handler` is.
use capptpl.Base.{
  Bytes, List, [], ap, arith, codes, if-cases, length, length-append, ltb, suc, take-all, ℕ, ◌%◌,
  ◌++◌, ◌+◌, ◌-◌, ◌<◌, ◌^◌, ◌∙◌, ◌∷◌, ◌≡◌, ◌≤◌,
}
use capptpl.Base.Chars.{decimal, decimal_ℤ, to_int}
use capptpl.Base.Chars.Decimal.{decimal-length}
use capptpl.Capture.{Capture}
use capptpl.Packets.{Counters}
use capptpl.Reports.{as_int, render, stats_fields, stats_text}

-- The bounds of the numbers in a list of fields.
abbrev pub Fit : List ℕ → List (Bytes × Bytes) → Type 0
Fit [] [] = Unit
Fit [] (f ∷ fields) = ⊥
Fit (b ∷ bounds) [] = ⊥
Fit (b ∷ bounds) ((t, n) ∷ fields) = (length t + length n ≤ b) × Fit bounds fields

abbrev pub sum : List ℕ → ℕ
sum [] = 0
sum (b ∷ bounds) = b + sum bounds

render_next :
    (t n last : Bytes) (fields : List (Bytes × Bytes))
    → length (render ((t, n) ∷ fields) last) ≡ length t + (length n + length (render fields last))
unfolding render
render_next t n last fields =
    length-append {0} t (n ++ render fields last)
    ∙ ap (λ k. length t + k) (length-append {0} n (render fields last))

render-length :
    (bounds : List ℕ) (fields : List (Bytes × Bytes)) (last : Bytes)
    → Fit bounds fields
    → length (render fields last) ≤ sum bounds + length last
unfolding render
render-length [] [] last h = omega arith
render-length [] (f ∷ fields) last h = elim h [ ]
render-length (b ∷ bounds) [] last h = elim h [ ]
render-length (b ∷ bounds) ((t, n) ∷ fields) last (h, hs) =
    omega (arith, h, render-length bounds fields last hs, render_next t n last fields)

count_length : (n : ℕ) → n < 2 ^ 64 → length (decimal n) ≤ 20
count_length n h = decimal-length n 19 (omega arith)

length-as_int : (n : ℕ) → length (as_int n) ≤ 11
unfolding as_int to_int decimal_ℤ
length-as_int n =
    if-cases (λ x. length (decimal_ℤ x) ≤ 11) (ltb (n % 2 ^ 32) (2 ^ 31)) _ _
      (λ e. omega (arith, decimal-length (n % 2 ^ 32) 9 (ground (arith, e))))
      (λ e. omega (arith, decimal-length (suc (2 ^ 32 - 1 - n % 2 ^ 32)) 9 (ground (arith, e))))

-- The counters are values of their types.
pub record IsMachine (c : Capture) (k : Counters) (messages works : ℕ) : Type 0 where
  pub pkts_fits : c.pkts < 2 ^ 64
  pub bytes_fits : c.bytes < 2 ^ 64
  pub count_fits : k.count < 2 ^ 64
  pub parsed_fits : k.bytes < 2 ^ 64
  pub words_fits : k.word_match_count < 2 ^ 64
  pub regexes_fits : k.regex_match_count < 2 ^ 64
  pub messages_fits : messages < 2 ^ 64
  pub works_fits : works < 2 ^ 64

abbrev stats_bounds : List ℕ
stats_bounds = 46 ∷ 32 ∷ 40 ∷ 30 ∷ 30 ∷ 50 ∷ 40 ∷ 45 ∷ 45 ∷ 50 ∷ 50 ∷ []

stats_fields-Fit :
    (c : Capture) (k : Counters) (messages works : ℕ)
    → IsMachine c k messages works
    → Fit stats_bounds (stats_fields c k messages works)
unfolding stats_fields
stats_fields-Fit c k messages works m = (
  omega (arith, count_length c.pkts m.pkts_fits),
  (
    omega (arith, count_length c.bytes m.bytes_fits),
    (
      omega (arith, length-as_int c.ps.ps_recv),
      (
        omega (arith, length-as_int c.ps.ps_drop),
        (
          omega (arith, length-as_int c.ps.ps_ifdrop),
          (
            omega (arith, count_length k.count m.count_fits),
            (
              omega (arith, count_length k.bytes m.parsed_fits),
              (
                omega (arith, count_length k.word_match_count m.words_fits),
                (
                  omega (arith, count_length k.regex_match_count m.regexes_fits),
                  (
                    omega (arith, count_length messages m.messages_fits),
                    (omega (arith, count_length works m.works_fits), tt),
                  ),
                ),
              ),
            ),
          ),
        ),
      ),
    ),
  ),
)

-- Whatever the counters' values of 64 bits and libpcap's statistics are: the buffer of 512 bytes
-- holds the whole text of the statistics, and nothing of it is cut.
pub stats_text-render :
    (c : Capture) (k : Counters) (messages works : ℕ)
    → IsMachine c k messages works
    → stats_text c k messages works ≡ render (stats_fields c k messages works) (codes " } }")
unfolding stats_text
stats_text-render c k messages works m =
    take-all 510 (render (stats_fields c k messages works) (codes " } }")) (
      omega (
        arith,
        render-length stats_bounds (stats_fields c k messages works) (codes " } }")
            (stats_fields-Fit c k messages works m),
      ))

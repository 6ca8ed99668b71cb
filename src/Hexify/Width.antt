-- ===== src/Hexify/Width.antt =====
-- The size of the hex dump (internal/hexify/hexify.go).
use native.Mathlib.Nat.{pow-suc, add-zero}
use stprov.Prelude.{
  ℕ, zero, suc, ◌+◌, ◌-◌, ◌*◌, ◌/◌, ◌%◌, ◌^◌, ◌≤◌, ◌<◌, [], ◌∷◌, ◌++◌, Text, Bytes, length, get_or,
  set, replicate, decimal, digits_of, length-append, length-replicate, ltb, ◌==◌, if◌then◌else◌,
  codes, ◌≡◌, ◌∙◌, refl, arith,
}
use stprov.Hexify.{padded, hex_byte, shown, columns, line_end, format_loop, format}
use stprov.Hexify.Layout.{length-set}

length-digits_of :
    (k f n : ℕ) (acc : Text) → n < 10 ^ suc k → length (digits_of f n acc) ≤ suc k + length acc
unfolding digits_of
length-digits_of k zero n acc h = omega arith
length-digits_of zero (suc f) n acc h = ground arith
length-digits_of (suc k) (suc f) n acc h =
    let next : Text = (b'0' + n % 10) ∷ acc in
    ground (arith, length-digits_of k f (n / 10) next (omega (arith, pow-suc 10 (suc k))))

length-padded : (n : ℕ) → n < 10 ^ 4 → length (padded n) ≡ 4
unfolding padded decimal
length-padded n h = omega (
  arith,
  length-append (replicate (4 - length (decimal n)) b' ') (decimal n),
  length-replicate {A = ℕ} (4 - length (decimal n)) b' ',
  length-digits_of 3 (suc n) n [] h,
)

-- What `i` rounds have written: whole lines of 73, and the part of a line.
abbrev written : ℕ → ℕ
written i =
    73 * (i / 16)
    + (if i % 16 == 0 then 0 else 5 + 3 * (i % 16) + (if ltb 8 (i % 16) then 1 else 0))

length-columns :
    (bs : Bytes) (i : ℕ)
    → i < 10 ^ 4
    → length (columns bs i) ≡ (if i % 16 == 0 then 4 else 0) + (if i % 8 == 0 then 1 else 0) + 3
unfolding columns hex_byte
length-columns bs i h = ground (
  arith,
  length-append ((if i % 16 == 0 then padded i else []) ++ (if i % 8 == 0 then codes " " else []))
      (if ltb i (length bs) then codes " " ++ hex_byte (get_or bs i 0) else codes "   "),
  length-append (if i % 16 == 0 then padded i else []) (if i % 8 == 0 then codes " " else []),
  length-padded i h,
)

length-line_end :
    (i : ℕ) (buf : Bytes)
    → length buf ≡ 16
    → length (line_end i buf) ≡ (if i % 16 == 15 then 19 else 0)
unfolding line_end
length-line_end i buf e =
    ground (arith, length-append (codes "  " ++ buf) (codes "\n"), length-append (codes "  ") buf)

written-suc :
    (i : ℕ)
    → written (i + 1)
      ≡ written i
        + ((if i % 16 == 0 then 4 else 0) + (if i % 8 == 0 then 1 else 0) + 3)
        + (if i % 16 == 15 then 19 else 0)
written-suc i = ground arith

module _ (bs : Bytes) where
  length-format_loop :
      (rounds i : ℕ) (buf : Bytes) (out : Text)
      → i + rounds ≤ 10 ^ 4
      → length buf ≡ 16
      → length out ≡ written i
      → length (format_loop bs rounds i buf out) ≡ written (i + rounds)
  unfolding format_loop
  length-format_loop zero i buf out h e o = rw add-zero o
  length-format_loop (suc rounds) i buf out h e o =
      let buf' = set buf (i % 16) (shown bs i) in
      let e' : length buf' ≡ 16 = length-set buf (i % 16) (shown bs i) ∙ e in
      let o' : length ((out ++ columns bs i) ++ line_end i buf') ≡ written (i + 1) = omega (
        arith,
        length-append (out ++ columns bs i) (line_end i buf'),
        length-append out (columns bs i),
        length-columns bs i (omega arith),
        length-line_end i buf' e',
        written-suc i,
      ) in
      rw (shift i rounds) (
        length-format_loop rounds (i + 1) buf' ((out ++ columns bs i) ++ line_end i buf')
          (omega arith) e' o')
    where
      shift : (a b : ℕ) → a + suc b ≡ (a + 1) + b
      shift a b = omega arith

  -- Up to ten thousand bytes, whose offsets fit four digits, the dump has a line of 73 characters
  -- for every sixteen bytes or part of it.
  pub length-format : length bs ≤ 10 ^ 4 → length (format bs) ≡ (length bs + 15) / 16 * 73
  unfolding format
  length-format h =
      length-format_loop ((length bs + 15) / 16 * 16) 0 (replicate 16 0) [] (omega arith) refl refl
      ∙ ground arith

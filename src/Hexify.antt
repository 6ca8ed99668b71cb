-- ===== src/Hexify.antt =====
-- internal/hexify/hexify.go: the hex dump that both programs print of the entropy.
pub mod Layout
pub mod Lines
pub mod Width
use stprov.Prelude.{
  ℕ, zero, suc, ◌+◌, ◌-◌, ◌*◌, ◌/◌, ◌%◌, ◌||◌, [], ◌∷◌, ◌++◌, Text, Bytes, codes, length, get_or,
  set, replicate, decimal, ◌==◌, ltb, if◌then◌else◌, ◌≡◌, refl,
}

-- fmt.Sprintf("%4d", n)
unfoldable pub padded : ℕ → Text
padded n = replicate (4 - length (decimal n)) b' ' ++ decimal n

unfoldable pub hex_digit : ℕ → ℕ
hex_digit d = if ltb d 10 then b'0' + d else b'A' + (d - 10)

-- fmt.Sprintf("%02X", b) for a byte
unfoldable pub hex_byte : ℕ → Text
unfolding hex_digit
hex_byte b = hex_digit (b / 16) ∷ hex_digit (b % 16) ∷ []

-- What round `i` of the loop puts at buf[i%16].
unfoldable pub shown : Bytes → ℕ → ℕ
shown input i =
    if ltb i (length input)
    then (let b = get_or input i 0 in if ltb b 32 || ltb 126 b then b'.' else b)
    else b' '

-- What round `i` writes before it fills the buffer.
unfoldable pub columns : Bytes → ℕ → Text
unfolding hex_byte
columns input i =
    (if i % 16 == 0 then padded i else [])
    ++ (if i % 8 == 0 then codes " " else [])
    ++ (if ltb i (length input) then codes " " ++ hex_byte (get_or input i 0) else codes "   ")

-- What round `i` writes once the buffer is filled.
unfoldable pub line_end : ℕ → Bytes → Text
line_end i buf = if i % 16 == 15 then codes "  " ++ buf ++ codes "\n" else []

-- The loop, with the rounds that are left.
unfoldable pub format_loop : Bytes → ℕ → ℕ → Bytes → Text → Text
format_loop input zero i buf out = out
format_loop input (suc rounds) i buf out =
    let buf' = set buf (i % 16) (shown input i) in
    format_loop input rounds (i + 1) buf' ((out ++ columns input i) ++ line_end i buf')

-- `(n + 15) &^ 15` clears the four low bits.
unfoldable pub format : Bytes → Text
unfolding format_loop
format input = format_loop input ((length input + 15) / 16 * 16) 0 (replicate 16 0) []

format_two :
    format (0x00 ∷ 0x41 ∷ [])
    ≡ codes "   0  00 41                                             .A              \n"
unfolding format columns line_end shown padded decimal
format_two = refl

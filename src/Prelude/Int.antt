-- ===== src/Prelude/Int.antt =====
-- Signed integers, for values of Go's int64 that may be negative. `negsuc n` is -(n + 1).
use Prim.Native.Nat.{ℕ, ◌+◌}
use mathlib.Core.List.{◌∷◌}
use mathlib.Core.Bool.{Bool, true, false, ◌||◌}
use mathlib.Core.Option.{Option, none, some}
use stprov.Prelude.Tests.{ltb, if◌then◌else◌}
use stprov.Prelude.Strings.{Text, decimal}

pub data ℤ : Type 0 where
  pos : ℕ → ℤ
  negsuc : ℕ → ℤ

-- i < 0
abbrev pub is_negative : ℤ → Bool
is_negative (pos n) = false
is_negative (negsuc n) = true

-- i < j
abbrev pub int_ltb : ℤ → ℤ → Bool
int_ltb (pos m) (pos n) = ltb m n
int_ltb (pos m) (negsuc n) = false
int_ltb (negsuc m) (pos n) = true
int_ltb (negsuc m) (negsuc n) = ltb n m

-- fmt.Sprintf("%d", i)
abbrev pub int_decimal : ℤ → Text
int_decimal (pos n) = decimal n
int_decimal (negsuc n) = b'-' ∷ decimal (n + 1)

-- port < 1 || port > 65535 is an error: the port, if it is in range
abbrev pub valid_port : ℤ → Option ℕ
valid_port (pos n) = if ltb n 1 || ltb 65535 n then none else some n
valid_port (negsuc n) = none

-- ===== src/Base/Word.antt =====
-- 16-bit words: `unsigned int`, `int`, `size_t` and pointers of the AVR target. An `int` is its
-- two's complement pattern, so `is_negative` reads the sign bit.
use Prim.Native.Nat.{ℕ, ◌+◌, ◌-◌, ◌%◌}
use mathlib.Core.Bool.{Bool}
use ez_rtos.Base.Tests.{leb}

abbrev pub Ptr : Type 0
Ptr = ℕ

abbrev pub null : Ptr
null = 0

abbrev pub add_word : ℕ → ℕ → ℕ
add_word a b = (a + b) % 65536

abbrev pub sub_word : ℕ → ℕ → ℕ
sub_word a b = (a + 65536 - b) % 65536

-- The `int` with this pattern is below 0.
abbrev pub is_negative : ℕ → Bool
is_negative a = leb 32768 a

-- A conversion to `PRIORITY`, an `unsigned char`.
abbrev pub to_priority : ℕ → ℕ
to_priority a = a % 256

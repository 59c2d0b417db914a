-- ===== src/Prelude/Word.antt =====
-- C++ integers as bit patterns: an `int` is a number below 2 ^ 32 and an `int64_t` one below
-- 2 ^ 64, both in two's complement.
use Prim.Native.Nat.{ℕ, ◌+◌, ◌-◌, ◌%◌, ◌^◌}
use mathlib.Core.Bool.{Bool, ◌||◌}
use game_server.Prelude.Tests.{ltb, leb, ◌==◌, if◌then◌else◌}

abbrev pub u16_mod : ℕ
u16_mod = 2 ^ 16

abbrev pub i32_mod : ℕ
i32_mod = 2 ^ 32

abbrev pub i64_mod : ℕ
i64_mod = 2 ^ 64

-- The pattern of -1.
abbrev pub minus_one : ℕ
minus_one = 2 ^ 32 - 1

-- `int x = y` for an `int64_t` or `size_t` y keeps the low 32 bits.
abbrev pub to_i32 : ℕ → ℕ
to_i32 y = y % i32_mod

-- An `int` widened to an `int64_t`: the sign bit is copied.
abbrev pub to_i64 : ℕ → ℕ
to_i64 x = if ltb x (2 ^ 31) then x else x + (2 ^ 64 - 2 ^ 32)

-- `++x` and `x + y` on an `int`. An atomic wraps like this; on a plain `int`, what goes past
-- 2 ^ 31 - 1 is undefined in C++, and wraps here.
abbrev pub inc_i32 : ℕ → ℕ
inc_i32 x = (x + 1) % i32_mod

abbrev pub add_i32 : ℕ → ℕ → ℕ
add_i32 x y = (x + y) % i32_mod

-- `x <= 0` for an `int`.
abbrev pub is_nonpos_i32 : ℕ → Bool
is_nonpos_i32 x = (x == 0) || leb (2 ^ 31) x

-- `x < 0` for an `int64_t`.
abbrev pub is_neg_i64 : ℕ → Bool
is_neg_i64 x = leb (2 ^ 63) x

-- The signed order of two `int`s: adding 2 ^ 31 modulo 2 ^ 32 turns it into that of the patterns.
abbrev pub bias_i32 : ℕ → ℕ
bias_i32 x = (x + 2 ^ 31) % i32_mod

abbrev pub lt_i32 : ℕ → ℕ → Bool
lt_i32 x y = ltb (bias_i32 x) (bias_i32 y)

-- ===== src/Prelude/Text.antt =====
-- Texts as the bytes of a `std::string`, and `std::to_string`.
use Prim.Native.Nat.{ℕ, zero, suc, ◌+◌, ◌-◌, ◌*◌, ◌/◌, ◌%◌, ◌^◌, ◌<◌}
use Prim.Native.Char.{code}
use Prim.Native.String.{String}
use mathlib.Core.Path.{◌≡◌, refl, sym, ap, ◌∙◌}
use mathlib.Core.List.{[], ◌∷◌, ◌++◌}
use native.Mathlib.Omega.{arith}
use native.Mathlib.Nat.{pow-suc}
use game_server.Prelude.Tests.{ltb, lt→ltb, if◌then◌else◌}
use game_server.Prelude.Lists.{Bytes}
use game_server.Prelude.Word.{i32_mod}

-- The bytes of a literal in ASCII.
abbrev pub codes : String → Bytes
codes String.[] = []
codes (String.◌∷◌ c s) = code c ∷ codes s

-- Decimal digits, the first digit first; `fuel` bounds their number.
unfoldable pub decimal : ℕ → ℕ → Bytes
decimal zero n = []
decimal (suc fuel) n =
    let front = decimal fuel (n / 10) in
    if ltb n 10 then (48 + n) ∷ [] else front ++ (48 + n % 10) ∷ []

-- `std::to_string` of an `int`, which has ten digits at most.
unfoldable pub to_string : ℕ → Bytes
unfolding decimal
to_string x = if ltb x (2 ^ 31) then decimal 10 x else b'-' ∷ decimal 10 (i32_mod - x)

-- The number that digits write.
abbrev read_digits : ℕ → Bytes → ℕ
read_digits acc [] = acc
read_digits acc (d ∷ ds) = read_digits (acc * 10 + (d - 48)) ds

read_digits-append_one :
    (acc : ℕ) (ds : Bytes) (d : ℕ)
    → read_digits acc (ds ++ d ∷ []) ≡ read_digits acc ds * 10 + (d - 48)
read_digits-append_one acc [] d = refl
read_digits-append_one acc (x ∷ ds) d = read_digits-append_one (acc * 10 + (x - 48)) ds d

read_digits-decimal : (fuel n : ℕ) → n < 10 ^ fuel → read_digits 0 (decimal fuel n) ≡ n
unfolding decimal
read_digits-decimal zero n h = omega arith
read_digits-decimal (suc fuel) n h =
    let bound : n < 10 ^ fuel * 10 = rw (← pow-suc 10 fuel) h in
    let shorter : n / 10 < 10 ^ fuel = omega arith in
    ground (
      arith,
      read_digits-append_one 0 (decimal fuel (n / 10)) (48 + n % 10),
      read_digits-decimal fuel (n / 10) shorter,
    )

to_string_nonneg : (n : ℕ) → n < 2 ^ 31 → to_string n ≡ decimal 10 n
unfolding to_string
to_string_nonneg n h = rw (lt→ltb n (2 ^ 31) h)

-- Ten digits write every number that is not negative as an `int`, so two of them differ.
pub to_string-injective : (m n : ℕ) → m < 2 ^ 31 → n < 2 ^ 31 → to_string m ≡ to_string n → m ≡ n
to_string-injective m n hm hn e =
    sym (read_digits-decimal 10 m (omega arith))
    ∙ ap (read_digits 0) (sym (to_string_nonneg m hm) ∙ e ∙ to_string_nonneg n hn)
    ∙ read_digits-decimal 10 n (omega arith)

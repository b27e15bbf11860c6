-- ===== src/Prelude/Decimal.antt =====
-- fmt's `%d`, strconv.Itoa, and the digits that strconv reads.
pub mod Laws
use Prim.Native.Nat.{ℕ, zero, suc, ◌+◌, ◌-◌, ◌*◌, ◌/◌, ◌%◌}
use Prim.Native.Char.{code}
use Prim.Native.String.{String}
use mathlib.Core.Path.{◌≡◌, refl}
use mathlib.Core.Bool.{◌&&◌}
use mathlib.Core.Option.{Option, none, some}
use csi_driver_flexblock.Prelude.Tests.{ltb, leb, if◌then◌else◌}
use csi_driver_flexblock.Prelude.Text.{◌<>◌}
use csi_driver_flexblock.Prelude.Int.{ℤ, pos, negsuc}

digit : ℕ → String
digit zero = "0"
digit (suc zero) = "1"
digit (suc (suc zero)) = "2"
digit (suc (suc (suc zero))) = "3"
digit (suc (suc (suc (suc zero)))) = "4"
digit (suc (suc (suc (suc (suc zero))))) = "5"
digit (suc (suc (suc (suc (suc (suc zero)))))) = "6"
digit (suc (suc (suc (suc (suc (suc (suc zero))))))) = "7"
digit (suc (suc (suc (suc (suc (suc (suc (suc zero)))))))) = "8"
digit _ = "9"

-- The fuel is the number itself: a number has no more digits than that.
show_fuel : ℕ → ℕ → String
unfolding digit ◌<>◌
show_fuel zero n = digit (n % 10)
show_fuel (suc f) n =
    let front = show_fuel f (n / 10) in if ltb n 10 then digit n else front <> digit (n % 10)

unfoldable pub show : ℕ → String
unfolding show_fuel
show n = show_fuel n n

unfoldable pub show_ℤ : ℤ → String
unfolding show ◌<>◌
show_ℤ (pos n) = show n
show_ℤ (negsuc n) = "-" <> show (suc n)

-- The value of a text of digits behind the value `acc` of those read; `none` at another character.
unfoldable pub read_digits : ℕ → String → Option ℕ
read_digits acc String.[] = some acc
read_digits acc (String.◌∷◌ c s) =
    let rest = read_digits (acc * 10 + (code c - 48)) s in
    if leb 48 (code c) && leb (code c) 57 then rest else none

show_1305 : show 1305 ≡ "1305"
unfolding show
show_1305 = refl

-- ===== src/Base/Double.antt =====
-- A JavaScript number as its 64 bits, with the comparisons of IEEE 754: nothing compares with a
-- NaN, and the two zeros are equal.
use Prim.Native.Nat.{ℕ, ◌+◌, ◌%◌, ◌/◌, ◌^◌}
use mathlib.Core.Path.{◌≡◌, refl}
use mathlib.Core.Bool.{Bool, true, false, not, ◌&&◌}
use agentct.Base.Bools.{ltb, ◌==◌, if◌then◌else◌}
use agentct.Base.Int.{ℤ, pos, sub_ℕ, ltb_ℤ, leb_ℤ}

pub record Double : Type 0 where
  pub bits : ℕ

-- The bits with the sign cleared: `Math.abs(x)`.
unfoldable pub abs : Double → Double
abs x = record { bits = x.bits % 2 ^ 63 }

is_nan : Double → Bool
is_nan x = ltb 0x7ff0_0000_0000_0000 (x.bits % 2 ^ 63)

-- `Number.isFinite(x)`
unfoldable pub is_finite : Double → Bool
is_finite x = ltb (x.bits % 2 ^ 63) 0x7ff0_0000_0000_0000

-- The place of a number in the order: the magnitude's bits, signed.
place : Double → ℤ
place x = if x.bits / 2 ^ 63 == 0 then pos (x.bits) else sub_ℕ 0 (x.bits % 2 ^ 63)

-- `x < y`
unfoldable pub lt : Double → Double → Bool
unfolding is_nan place
lt x y = not (is_nan x) && not (is_nan y) && ltb_ℤ (place x) (place y)

-- `x <= y`
unfoldable pub le : Double → Double → Bool
unfolding is_nan place
le x y = not (is_nan x) && not (is_nan y) && leb_ℤ (place x) (place y)

-- `x === y`
abbrev pub eq : Double → Double → Bool
eq x y = le x y && le y x

-- `Math.max` and `Math.min`: a NaN wins, and of the two zeros the positive or the negative one.
unfoldable pub max : Double → Double → Double
unfolding is_nan lt
max x y =
    if is_nan x
    then x
    else if is_nan y
    then y
    else if lt x y
    then y
    else if x.bits == 2 ^ 63
    then y
    else x

unfoldable pub min : Double → Double → Double
unfolding is_nan lt
min x y =
    if is_nan x
    then x
    else if is_nan y
    then y
    else if lt y x
    then y
    else if y.bits == 2 ^ 63
    then y
    else x

-- `-x`
unfoldable pub neg : Double → Double
neg x = record { bits = (x.bits + 2 ^ 63) % 2 ^ 64 }

abbrev pub zero_double : Double
zero_double = record { bits = 0 }

abbrev pub one_double : Double
one_double = record { bits = 0x3ff0_0000_0000_0000 }

abbrev pub infinity : Double
infinity = record { bits = 0x7ff0_0000_0000_0000 }

-- 0.5 < 1, -1 < 0 and 0 < 0.5; nothing is below a NaN.
order_tests :
    (lt (record { bits = 0x3fe0_0000_0000_0000 }) one_double ≡ true)
    × (lt (record { bits = 0xbff0_0000_0000_0000 }) zero_double ≡ true)
    × (le zero_double (record { bits = 2 ^ 63 }) ≡ true)
    × (le zero_double (record { bits = 0x7ff8_0000_0000_0000 }) ≡ false)
unfolding lt le
order_tests = (refl, refl, refl, refl)

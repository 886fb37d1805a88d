-- ===== src/Base/Decimal.antt =====
-- Integers as text: `toString` of a bigint, and `BigInt` of a string.
pub mod RoundTrip
use Prim.Native.Nat.{ℕ, zero, suc, ◌+◌, ◌-◌, ◌*◌, ◌/◌, ◌%◌, ◌<◌, ◌≤◌}
use mathlib.Core.Path.{◌≡◌, refl, sym, ◌∙◌}
use mathlib.Core.Bool.{Bool, true, false, ◌&&◌, ◌||◌, false≢true}
use mathlib.Core.Logic.{inl, inr}
use mathlib.Core.Option.{Option, none, some}
use mathlib.Core.List.{List, [], ◌∷◌, ◌++◌, append_assoc, append-nil, reverse}
use native.Mathlib.Omega.{arith}
use agentct.Base.Bools.{ltb, leb, ◌==◌, if◌then◌else◌, Bool-cases}
use agentct.Base.Int.{ℤ, pos, negsuc, sub_ℕ}
use agentct.Base.Texts.{Text, codes, trim, trim_start, is_space, is_empty}

-- The decimal digits of a number, with fuel for one digit each.
unfoldable pub print_digits : ℕ → ℕ → Text
print_digits zero n = []
print_digits (suc f) n =
    let front = print_digits f (n / 10) in
    if ltb n 10 then (48 + n) ∷ [] else front ++ (48 + n % 10) ∷ []

-- `n.toString()`
unfoldable pub int_text : ℤ → Text
unfolding print_digits
int_text (pos n) = print_digits (suc n) n
int_text (negsuc n) = 45 ∷ print_digits (suc (suc n)) (suc n)

-- The value of a digit in a radix up to 36.
unfoldable pub digit : ℕ → ℕ → Option ℕ
digit radix c =
    let v : ℕ =
      if leb 48 c && leb c 57
      then c - 48
      else if leb 97 c && leb c 122
      then c - 87
      else if leb 65 c && leb c 90
      then c - 55
      else radix in
    if ltb v radix then some v else none

-- The digits of a text, behind a value read so far.
unfoldable pub read_digits : ℕ → ℕ → Text → Option ℕ
read_digits radix acc [] = some acc
read_digits radix acc (c ∷ s) = elim (digit radix c) [
  | none ↦ none
  | some v ↦ read_digits radix (acc * radix + v) s
]

-- At least one digit.
unfoldable pub read_nat : ℕ → Text → Option ℕ
unfolding read_digits digit
read_nat radix [] = none
read_nat radix (c ∷ s) = read_digits radix 0 (c ∷ s)

abbrev positive : Option ℕ → Option ℤ
positive none = none
positive (some n) = some (pos n)

abbrev pub negative : Option ℕ → Option ℤ
negative none = none
negative (some n) = some (sub_ℕ 0 n)

-- `0x`, `0o` and `0b`, in either case of the letter.
abbrev radix_of : ℕ → Option ℕ
radix_of c =
    if (c == 120) || (c == 88)
    then some 16
    else if (c == 111) || (c == 79)
    then some 8
    else if (c == 98) || (c == 66)
    then some 2
    else none

unfoldable pub prefixed : ℕ → Text → Option ℤ
unfolding read_nat
prefixed c s = elim (radix_of c) [
  | none ↦ positive (read_digits 10 0 (48 ∷ c ∷ s))
  | some radix ↦ positive (read_nat radix s)
]

unfoldable pub read_unspaced : Text → Option ℤ
unfolding prefixed read_nat
read_unspaced [] = some (pos 0)
read_unspaced (c ∷ []) = positive (read_nat 10 (c ∷ []))
read_unspaced (c ∷ d ∷ s) =
    if c == 45
    then negative (read_nat 10 (d ∷ s))
    else if c == 43
    then positive (read_nat 10 (d ∷ s))
    else if c == 48
    then prefixed d s
    else positive (read_nat 10 (c ∷ d ∷ s))

-- `BigInt(s)`; `none` is the syntax error.
unfoldable pub int_of_text : Text → Option ℤ
unfolding read_unspaced trim
int_of_text s = read_unspaced (trim s)

tests :
    (int_of_text (int_text (pos 1205)) ≡ some (pos 1205))
    × (int_of_text (int_text (negsuc 41)) ≡ some (negsuc 41))
    × (int_of_text (codes " 0x1F ") ≡ some (pos 31))
    × (int_of_text [] ≡ some (pos 0))
    × (int_of_text (codes "1.5") ≡ none)
    × (int_of_text (codes "-") ≡ none)
unfolding int_of_text int_text
tests = (refl, refl, refl, refl, refl, refl)

read_digits-print :
    (f n : ℕ) (rest : Text)
    → n < f
    → read_digits 10 0 (print_digits f n ++ rest) ≡ read_digits 10 n rest
unfolding read_digits print_digits digit
read_digits-print zero n rest h = absurd (omega arith)
read_digits-print (suc f) n rest h = elim (Bool-cases (ltb n 10)) [
  | inl small ↦ ground arith
  | inr big ↦
      let d = 48 + n % 10 in
      let ih = read_digits-print f (n / 10) (d ∷ rest) (ground arith) in
      ground (arith, ih, append_assoc (print_digits f (n / 10)) (d ∷ []) rest)
]

-- ===== src/Base/Decimal/RoundTrip.antt =====
-- What `toString` of a bigint writes, `BigInt` reads back.
use mathlib.Core.List.{reverse, reverse-append, reverse-reverse, append-nil}
use agentct.Base.{
  ℕ, zero, suc, ◌+◌, ◌/◌, ◌%◌, ◌<◌, ltb, leb, Text, trim, trim_start, is_space, is_empty, all, Bool,
  true, false, not, ◌&&◌, some, List, [], ◌∷◌, ◌++◌, ◌≡◌, refl, sym, ap, ◌∙◌, inl, inr, arith,
  Bool-cases, ℤ, pos, negsuc,
}
use agentct.Base.Decimal.{
  print_digits, int_text, read_digits, read_unspaced, int_of_text, read_digits-print, positive,
  negative,
}

abbrev is_digit : ℕ → Bool
is_digit c = leb 48 c && leb c 57

all-append {ℓ} :
    {A : Type ℓ} (p : A → Bool) (xs ys : List A) → all p (xs ++ ys) ≡ (all p xs && all p ys)
all-append p [] ys = refl
all-append p (x ∷ xs) ys = ground (arith, all-append p xs ys)

all-reverse {ℓ} : {A : Type ℓ} (p : A → Bool) (xs : List A) → all p (reverse xs) ≡ all p xs
all-reverse p [] = refl
all-reverse p (x ∷ xs) =
    ap (all p) (reverse-append (x ∷ []) xs)
    ∙ all-append p (reverse xs) (x ∷ [])
    ∙ ground (arith, all-reverse p xs)

-- What has no white space is not trimmed.
unspaced : (s : Text) → all (λ c. not (is_space c)) s ≡ true → trim_start s ≡ s
unfolding trim_start
unspaced [] h = refl
unspaced (c ∷ s) h = ground arith

trim_unspaced : (s : Text) → all (λ c. not (is_space c)) s ≡ true → trim s ≡ s
unfolding trim
trim_unspaced s h =
    ap (λ (t : Text). reverse (trim_start (reverse t))) (unspaced s h)
    ∙ ap reverse (unspaced (reverse s) (all-reverse _ s ∙ h))
    ∙ reverse-reverse s

digits_unspaced : (s : Text) → all is_digit s ≡ true → all (λ c. not (is_space c)) s ≡ true
unfolding is_space
digits_unspaced [] h = refl
digits_unspaced (c ∷ s) h = ground (arith, digits_unspaced s)

all-print_digits : (f n : ℕ) → all is_digit (print_digits f n) ≡ true
unfolding print_digits
all-print_digits zero n = refl
all-print_digits (suc f) n = elim (Bool-cases (ltb n 10)) [
  | inl small ↦ ground arith
  | inr big ↦ ground (
    arith,
    all-print_digits f (n / 10),
    all-append is_digit (print_digits f (n / 10)) ((48 + n % 10) ∷ []),
  )
]

print_digits-nonempty : (f n : ℕ) → is_empty (print_digits (suc f) n) ≡ false
unfolding print_digits
print_digits-nonempty f n = elim (Bool-cases (ltb n 10)) [
  | inl small ↦ ground arith
  | inr big ↦ rw big (after (print_digits f (n / 10)))
]
  where
    after : (t : Text) → is_empty (t ++ (48 + n % 10) ∷ []) ≡ false
    after [] = refl
    after (c ∷ t) = refl

read_unspaced-digits :
    (t : Text)
    → is_empty t ≡ false
    → all is_digit t ≡ true
    → read_unspaced t ≡ positive (read_digits 10 0 t)
unfolding read_unspaced
read_unspaced-digits [] e h = cc
read_unspaced-digits (c ∷ []) e h = refl
read_unspaced-digits (c ∷ d ∷ s) e h = ground arith

read_unspaced-minus :
    (t : Text) → is_empty t ≡ false → read_unspaced (45 ∷ t) ≡ negative (read_digits 10 0 t)
unfolding read_unspaced
read_unspaced-minus [] e = cc
read_unspaced-minus (d ∷ s) e = refl

read_digits-print_all : (f n : ℕ) → n < f → read_digits 10 0 (print_digits f n) ≡ some n
unfolding read_digits
read_digits-print_all f n h =
    ap (read_digits 10 0) (sym (append-nil (print_digits f n))) ∙ read_digits-print f n [] h

pub int_of_text-int_text : (i : ℤ) → int_of_text (int_text i) ≡ some i
unfolding int_of_text int_text
int_of_text-int_text (pos n) =
    let t = print_digits (suc n) n in
    let digits = all-print_digits (suc n) n in
    ap read_unspaced (trim_unspaced t (digits_unspaced t digits))
    ∙ read_unspaced-digits t (print_digits-nonempty n n) digits
    ∙ ap positive (read_digits-print_all (suc n) n (omega arith))
int_of_text-int_text (negsuc n) =
    let t = print_digits (suc (suc n)) (suc n) in
    let spaced = digits_unspaced t (all-print_digits (suc (suc n)) (suc n)) in
    ap read_unspaced (trim_unspaced (45 ∷ t) (not_space_minus t spaced))
    ∙ read_unspaced-minus t (print_digits-nonempty (suc n) (suc n))
    ∙ ap negative (read_digits-print_all (suc (suc n)) (suc n) (omega arith))
    ∙ ground arith
  where
    not_space_minus :
        (t : Text)
        → all (λ c. not (is_space c)) t ≡ true
        → all (λ c. not (is_space c)) (45 ∷ t) ≡ true
    not_space_minus t h = h

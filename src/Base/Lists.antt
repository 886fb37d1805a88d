-- ===== src/Base/Lists.antt =====
-- Lists measured by native numbers, Boolean search and filtering, and predicates by recursion.
use Prim.Native.Nat.{ℕ, zero, suc, ◌+◌, ◌-◌, ◌≤◌}
use mathlib.Core.Path.{◌≡◌, refl}
use mathlib.Core.Bool.{Bool, true, false, ◌&&◌, ◌||◌, false≢true}
use mathlib.Core.Logic.{◌↔◌, ◌⊎◌, inl, inr}
use mathlib.Core.Option.{Option, none, some}
use mathlib.Core.List.{List, [], ◌∷◌, ◌++◌}
use native.Mathlib.Omega.{arith}
use agentct.Base.Bools.{if◌then◌else◌, Bool-cases}

module _ {ℓ} {A : Type ℓ} where
  abbrev pub length : List A → ℕ
  length [] = 0
  length (x ∷ xs) = suc (length xs)

  abbrev pub get_elem? : List A → ℕ → Option A
  get_elem? [] i = none
  get_elem? (x ∷ xs) zero = some x
  get_elem? (x ∷ xs) (suc i) = get_elem? xs i

  abbrev pub take : ℕ → List A → List A
  take zero xs = []
  take (suc n) [] = []
  take (suc n) (x ∷ xs) = x ∷ take n xs

  abbrev pub drop : ℕ → List A → List A
  drop zero xs = xs
  drop (suc n) [] = []
  drop (suc n) (x ∷ xs) = drop n xs

  -- `xs.slice(-n)`, for n > 0
  abbrev pub take_last : ℕ → List A → List A
  take_last n xs = drop (length xs - n) xs

  -- `xs.some(p)`
  abbrev pub any : (A → Bool) → List A → Bool
  any p [] = false
  any p (x ∷ xs) = p x || any p xs

  -- `xs.every(p)`
  abbrev pub all : (A → Bool) → List A → Bool
  all p [] = true
  all p (x ∷ xs) = p x && all p xs

  -- `xs.filter(p)`, by a Boolean test
  abbrev pub filter : (A → Bool) → List A → List A
  filter p [] = []
  filter p (x ∷ xs) = if p x then x ∷ filter p xs else filter p xs

  -- `xs.find(p)`
  abbrev pub find? : (A → Bool) → List A → Option A
  find? p [] = none
  find? p (x ∷ xs) = if p x then some x else find? p xs

  pub length-append : (xs ys : List A) → length (xs ++ ys) ≡ length xs + length ys
  length-append [] ys = omega arith
  length-append (x ∷ xs) ys = omega (arith, length-append xs ys)

  pub take-append-drop : (n : ℕ) (xs : List A) → take n xs ++ drop n xs ≡ xs
  take-append-drop zero xs = refl
  take-append-drop (suc n) [] = refl
  take-append-drop (suc n) (x ∷ xs) = rw (take-append-drop n xs)

  pub length-drop : (n : ℕ) (xs : List A) → length (drop n xs) ≡ length xs - n
  length-drop zero xs = omega arith
  length-drop (suc n) [] = omega arith
  length-drop (suc n) (x ∷ xs) = omega (arith, length-drop n xs)

  pub filter-append :
      (p : A → Bool) (xs ys : List A) → filter p (xs ++ ys) ≡ filter p xs ++ filter p ys
  filter-append p [] ys = refl
  filter-append p (x ∷ xs) ys = ground (arith, filter-append p xs ys)

  pub length-filter-le : (p : A → Bool) (xs : List A) → length (filter p xs) ≤ length xs
  length-filter-le p [] = omega arith
  length-filter-le p (x ∷ xs) = ground (arith, length-filter-le p xs)

  pub any-append : (p : A → Bool) (xs ys : List A) → any p (xs ++ ys) ≡ (any p xs || any p ys)
  any-append p [] ys = refl
  any-append p (x ∷ xs) ys = ground (arith, any-append p xs ys)

  -- Filtering by a weaker test after a stronger one changes nothing.
  pub filter-filter :
      (p q : A → Bool) (xs : List A)
      → ((x : A) → p x ≡ true → q x ≡ true)
      → filter p (filter q xs) ≡ filter p xs
  filter-filter p q [] h = refl
  filter-filter p q (x ∷ xs) h = ground (arith, h x, filter-filter p q xs h)

module _ {ℓ κ} {A : Type ℓ} (P : A → Type κ) where
  abbrev pub All : List A → Type κ
  All [] = Unit
  All (x ∷ xs) = P x × All xs

  pub All-append : (xs ys : List A) → All xs → All ys → All (xs ++ ys)
  All-append [] ys h k = k
  All-append (x ∷ xs) ys (p, h) k = (p, All-append xs ys h k)

  pub All-append_left : (xs ys : List A) → All (xs ++ ys) → All xs
  All-append_left [] ys h = tt
  All-append_left (x ∷ xs) ys (p, h) = (p, All-append_left xs ys h)

  pub All-filter : (p : A → Bool) (xs : List A) → All xs → All (filter p xs)
  All-filter p [] h = tt
  All-filter p (x ∷ xs) h = ground (arith, All-filter p xs h.1)

-- What a test keeps passes it.
pub filter-All {ℓ} : {A : Type ℓ} (p : A → Bool) (xs : List A) → All (λ x. p x ≡ true) (filter p xs)
filter-All p [] = tt
filter-All p (x ∷ xs) = ground (arith, filter-All p xs)

pub or_true : (b : Bool) → (b || true) ≡ true
or_true b = ground arith

-- Some element satisfies a predicate.
abbrev pub Any {ℓ} : {A : Type ℓ} → (A → Type 0) → List A → Type 0
Any P [] = ⊥
Any P (x ∷ xs) = P x ⊎ Any P xs

-- A Boolean search decides the predicate that its test decides.
pub any_iff {ℓ} :
    {A : Type ℓ} (P : A → Type 0) (p : A → Bool) (xs : List A)
    → ((x : A) → (p x ≡ true) ↔ P x)
    → (any p xs ≡ true) ↔ Any P xs
any_iff P p [] h = (λ e. absurd (false≢true e), λ a. absurd a)
any_iff P p (x ∷ xs) h = (
  λ e. elim (Bool-cases (p x)) [
    | inl yes_x ↦ inl ((h x).0 yes_x)
    | inr no_x ↦ inr ((any_iff P p xs h).0 (rw no_x at e))
  ],
  λ a. elim a [ inl q ↦ rw ((h x).1 q) | inr q ↦ rw ((any_iff P p xs h).1 q) (or_true (p x)) ],
)

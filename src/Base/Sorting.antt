-- ===== src/Base/Sorting.antt =====
-- `xs.sort((a, b) => a.k - b.k)`: a stable sort by a numeric key. JavaScript's sort is stable and
-- leaves the algorithm open; insertion sort gives the one result that a stable sort can have.
pub mod Orders
use Prim.Native.Nat.{ℕ, ◌+◌, ◌≤◌}
use mathlib.Core.Path.{◌≡◌, refl}
use mathlib.Core.List.{List, [], ◌∷◌}
use native.Mathlib.Omega.{arith}
use agentct.Base.Bools.{leb, if◌then◌else◌}
use agentct.Base.Lists.{length, All}

module _ {ℓ} {A : Type ℓ} (key : A → ℕ) where
  -- An equal key that stood in front stays in front.
  unfoldable pub insert_by : A → List A → List A
  insert_by a [] = a ∷ []
  insert_by a (x ∷ xs) = if leb (key a) (key x) then a ∷ x ∷ xs else x ∷ insert_by a xs

  unfoldable pub sort_by : List A → List A
  unfolding insert_by
  sort_by [] = []
  sort_by (x ∷ xs) = insert_by x (sort_by xs)

  abbrev pub IsSorted : List A → Type 0
  IsSorted [] = Unit
  IsSorted (x ∷ xs) = All (λ y. key x ≤ key y) xs × IsSorted xs

  All-insert_by {κ} :
      (P : A → Type κ) (a : A) (xs : List A) → P a → All P xs → All P (insert_by a xs)
  unfolding insert_by
  All-insert_by P a [] p h = (p, tt)
  All-insert_by P a (x ∷ xs) p (q, h) = ground (arith, All-insert_by P a xs p h)

  pub All-sort_by {κ} : (P : A → Type κ) (xs : List A) → All P xs → All P (sort_by xs)
  unfolding sort_by
  All-sort_by P [] h = tt
  All-sort_by P (x ∷ xs) (p, h) = All-insert_by P x (sort_by xs) p (All-sort_by P xs h)

  below-All :
      (k : ℕ) (x : A) (xs : List A)
      → k ≤ key x
      → All (λ y. key x ≤ key y) xs
      → All (λ y. k ≤ key y) xs
  below-All k x [] h _ = tt
  below-All k x (y ∷ ys) h (p, ps) = (omega arith, below-All k x ys h ps)

  insert_by-IsSorted : (a : A) (xs : List A) → IsSorted xs → IsSorted (insert_by a xs)
  unfolding insert_by
  insert_by-IsSorted a [] h = (tt, tt)
  insert_by-IsSorted a (x ∷ xs) (p, h) = ground (
    arith,
    below-All (key a) x xs,
    insert_by-IsSorted a xs h,
    All-insert_by (λ y. key x ≤ key y) a xs,
  )

  pub sort_by-IsSorted : (xs : List A) → IsSorted (sort_by xs)
  unfolding sort_by
  sort_by-IsSorted [] = tt
  sort_by-IsSorted (x ∷ xs) = insert_by-IsSorted x (sort_by xs) (sort_by-IsSorted xs)

  length-insert_by : (a : A) (xs : List A) → length (insert_by a xs) ≡ length xs + 1
  unfolding insert_by
  length-insert_by a [] = omega arith
  length-insert_by a (x ∷ xs) = ground (arith, length-insert_by a xs)

  pub length-sort_by : (xs : List A) → length (sort_by xs) ≡ length xs
  unfolding sort_by
  length-sort_by [] = refl
  length-sort_by (x ∷ xs) = omega (arith, length-insert_by x (sort_by xs), length-sort_by xs)

  insert_by-first : (a : A) (xs : List A) → All (λ y. key a ≤ key y) xs → insert_by a xs ≡ a ∷ xs
  unfolding insert_by
  insert_by-first a [] h = refl
  insert_by-first a (x ∷ xs) (p, h) = ground arith

  -- A list that is in order stays as it is.
  pub sort_by-IsSorted_id : (xs : List A) → IsSorted xs → sort_by xs ≡ xs
  unfolding sort_by
  sort_by-IsSorted_id [] h = refl
  sort_by-IsSorted_id (x ∷ xs) (p, h) = rw (sort_by-IsSorted_id xs h) (insert_by-first x xs p)

-- ===== src/Base/Sorting/Orders.antt =====
-- Sorting by a key that no two elements share: the order in which they came does not matter.
use Prim.Native.Nat.{ℕ, ◌≤◌, ◌<◌}
use mathlib.Core.Path.{◌≡◌, refl, sym, ap, ap₂, ◌∙◌, subst}
use mathlib.Core.Bool.{Bool, true, false, not, ◌&&◌, ◌||◌}
use mathlib.Core.Logic.{inl, inr}
use mathlib.Core.List.{List, [], ◌∷◌, ◌++◌, map, Permᴰ}
use native.Mathlib.Omega.{arith}
use agentct.Base.Bools.{◌==◌, if◌then◌else◌, Bool-cases}
use agentct.Base.Lists.{All, any, filter}
use agentct.Base.Sorting.{insert_by, sort_by, IsSorted, sort_by-IsSorted}

pub any-Perm {ℓ} : {A : Type ℓ} (p : A → Bool) {xs ys : List A} → Permᴰ xs ys → any p xs ≡ any p ys
any-Perm p Permᴰ.nil = refl
any-Perm p (Permᴰ.cons e d) = ap₂ (λ x b. p x || b) e (any-Perm p d)
any-Perm p (Permᴰ.swap {a = a} {b = b} {l = l} e f) =
    or_swap (p a) (p b) (any p l) ∙ ap₂ (λ x y. p x || (p y || any p l)) f e
  where
    or_swap : (a b c : Bool) → (a || (b || c)) ≡ (b || (a || c))
    or_swap a b c = ground arith
any-Perm p (Permᴰ.trans c d) = any-Perm p c ∙ any-Perm p d

pub All-Perm {ℓ κ} :
    {A : Type ℓ} (P : A → Type κ) {xs ys : List A} → Permᴰ xs ys → All P xs → All P ys
All-Perm P Permᴰ.nil h = tt
All-Perm P (Permᴰ.cons e d) (p, h) = (subst P e p, All-Perm P d h)
All-Perm P (Permᴰ.swap e f) (p, (q, h)) = (subst P f q, (subst P e p, h))
All-Perm P (Permᴰ.trans c d) h = All-Perm P d (All-Perm P c h)

module _ {A B : Type 0} (from : A → ℕ) (to : B → ℕ) (f : A → B)
    (keeps : (x : A) → to (f x) ≡ from x) where
  insert_by-map :
      (a : A) (xs : List A) → insert_by to (f a) (map f xs) ≡ map f (insert_by from a xs)
  unfolding insert_by
  insert_by-map a [] = refl
  insert_by-map a (x ∷ xs) = ground (arith, keeps a, keeps x, insert_by-map a xs)

  -- Sorting what a function gives, by the key that it keeps.
  pub sort_by-map : (xs : List A) → sort_by to (map f xs) ≡ map f (sort_by from xs)
  unfolding sort_by
  sort_by-map [] = refl
  sort_by-map (x ∷ xs) =
      ap (insert_by to (f x)) (sort_by-map xs) ∙ insert_by-map x (sort_by from xs)

module _ {A : Type 0} (key : A → ℕ) where
  abbrev pub same_key : A → A → Bool
  same_key x y = key x == key y

  -- No two elements have the same key.
  abbrev pub apart : List A → Bool
  apart [] = true
  apart (x ∷ xs) = not (any (same_key x) xs) && apart xs

  pub apart-Perm : {xs ys : List A} → Permᴰ xs ys → apart xs ≡ apart ys
  apart-Perm Permᴰ.nil = refl
  apart-Perm (Permᴰ.cons {a = a} {l₂ = l} e d) =
      ap₂ (λ b c. not b && c) (any-Perm (same_key a) d ∙ ap (λ x. any (same_key x) l) e)
        (apart-Perm d)
  apart-Perm (Permᴰ.swap {a = a} {b = b} {l = l} e f) =
      both a b (any (same_key a) l) (any (same_key b) l) (apart l)
      ∙ ap₂ (λ x y. apart (x ∷ y ∷ l)) f e
    where
      both :
          (a b : A) (p q r : Bool)
          → (not (same_key a b || p) && (not q && r)) ≡ (not (same_key b a || q) && (not p && r))
      both a b p q r = ground arith
  apart-Perm (Permᴰ.trans c d) = apart-Perm c ∙ apart-Perm d

  insert_by-swap :
      (a b : A) (xs : List A)
      → same_key a b ≡ false
      → insert_by key a (insert_by key b xs) ≡ insert_by key b (insert_by key a xs)
  unfolding insert_by
  insert_by-swap a b [] h = ground arith
  insert_by-swap a b (x ∷ xs) h = ground (arith, insert_by-swap a b xs h)

  pub sort_by-Perm :
      {xs ys : List A} → Permᴰ xs ys → apart xs ≡ true → sort_by key xs ≡ sort_by key ys
  unfolding sort_by
  sort_by-Perm Permᴰ.nil h = refl
  sort_by-Perm (Permᴰ.cons e d) h = ap₂ (insert_by key) e (sort_by-Perm d (ground arith))
  sort_by-Perm (Permᴰ.swap {a = a} {b = b} {l = l} e f) h =
      insert_by-swap a b (sort_by key l) (ground arith)
      ∙ ap₂ (λ x y. insert_by key x (insert_by key y (sort_by key l))) f e
  sort_by-Perm (Permᴰ.trans c d) h = sort_by-Perm c h ∙ sort_by-Perm d (sym (apart-Perm c) ∙ h)

  insert_by-append :
      (a new : A) (xs : List A)
      → key a < key new
      → insert_by key a (xs ++ new ∷ []) ≡ insert_by key a xs ++ new ∷ []
  unfolding insert_by
  insert_by-append a new [] h = ground arith
  insert_by-append a new (x ∷ xs) h = ground (arith, insert_by-append a new xs h)

  -- A greater key goes last.
  pub sort_by-append :
      (xs : List A) (new : A)
      → All (λ x. key x < key new) xs
      → sort_by key (xs ++ new ∷ []) ≡ sort_by key xs ++ new ∷ []
  unfolding sort_by insert_by
  sort_by-append [] new h = refl
  sort_by-append (x ∷ xs) new (p, h) =
      ap (insert_by key x) (sort_by-append xs new h) ∙ insert_by-append x new (sort_by key xs) p

  first-filter :
      (p : A → Bool) (a : A) (xs : List A)
      → All (λ y. key a ≤ key y) xs
      → insert_by key a (filter p xs) ≡ a ∷ filter p xs
  unfolding insert_by
  first-filter p a [] h = refl
  first-filter p a (x ∷ xs) (q, h) = ground (arith, first-filter p a xs h)

  below :
      (k : ℕ) (x : A) (xs : List A)
      → k ≤ key x
      → All (λ y. key x ≤ key y) xs
      → All (λ y. k ≤ key y) xs
  below k x [] h _ = tt
  below k x (y ∷ ys) h (p, ps) = (omega arith, below k x ys h ps)

  filter-insert_by :
      (p : A → Bool) (a : A) (xs : List A)
      → IsSorted key xs
      → filter p (insert_by key a xs) ≡ (if p a then insert_by key a (filter p xs) else filter p xs)
  unfolding insert_by
  filter-insert_by p a [] h = refl
  filter-insert_by p a (x ∷ xs) (q, h) =
      ground (arith, below (key a) x xs, first-filter p a xs, filter-insert_by p a xs h)

  pub filter-sort_by :
      (p : A → Bool) (xs : List A) → filter p (sort_by key xs) ≡ sort_by key (filter p xs)
  unfolding sort_by
  filter-sort_by p [] = refl
  filter-sort_by p (x ∷ xs) =
      filter-insert_by p x (sort_by key xs) (sort_by-IsSorted key xs) ∙ elim (Bool-cases (p x)) [
        | inl yes_p ↦ rw yes_p (ap (insert_by key x) (filter-sort_by p xs))
        | inr no_p ↦ rw no_p (filter-sort_by p xs)
      ]

  any-insert_by :
      (p : A → Bool) (a : A) (xs : List A) → any p (insert_by key a xs) ≡ (p a || any p xs)
  unfolding insert_by
  any-insert_by p a [] = refl
  any-insert_by p a (x ∷ xs) = ground (arith, any-insert_by p a xs)

  pub any-sort_by : (p : A → Bool) (xs : List A) → any p (sort_by key xs) ≡ any p xs
  unfolding sort_by
  any-sort_by p [] = refl
  any-sort_by p (x ∷ xs) =
      any-insert_by p x (sort_by key xs) ∙ ap (λ b. p x || b) (any-sort_by p xs)

-- ===== src/X402/Nonces/Termination.antt =====
-- The loop of `reserve` ends: a set of n nonces cannot hold more than n different draws.
use agentct.Base.{
  suc, ◌≤◌, ◌<◌, Text, text_eq, text_eq_iff, lower, includes, true, false, not, Option, none, some,
  List, [], ◌∷◌, All, ◌≡◌, ◌⊎◌, inl, inr, arith, Bool-cases, length, length-filter-le, filter, map,
}
use agentct.X402.Nonces.{Tracker, has, add, draw_fresh, fresh_nonce, reserve, release}
use agentct.X402.Nonces.Outstanding.{has-release}

-- No two draws are the same nonce.
abbrev pub Distinct : List Text → Type 0
Distinct [] = Unit
Distinct (d ∷ draws) = (includes (map lower draws) (lower d) ≡ false) × Distinct draws

length-filter-lt :
    (k : Text) (t : Tracker)
    → includes t k ≡ true
    → suc (length (filter (λ n. not (text_eq n k)) t)) ≤ length t
unfolding includes
length-filter-lt k [] h = cc
length-filter-lt k (n ∷ t) h =
    ground (arith, length-filter-lt k t, length-filter-le (λ n. not (text_eq n k)) t)

length-release : (d : Text) (t : Tracker) → has d t ≡ true → length (release d t) < length t
unfolding has release
length-release d t h = length-filter-lt (lower d) t h

-- Draws that differ from `d` stay when `d` is released.
All-release :
    (d : Text) (draws : List Text) (t : Tracker)
    → includes (map lower draws) (lower d) ≡ false
    → All (λ n. has n t ≡ true) draws
    → All (λ n. has n (release d t) ≡ true) draws
unfolding includes
All-release d [] t h a = tt
All-release d (n ∷ draws) t h a = (
  ground
      (arith, has-release d n t, text_eq_iff (lower n) (lower d), text_eq_iff (lower d) (lower n)),
  All-release d draws t (ground arith) a.1,
)

length-le-of_All :
    (draws : List Text) (t : Tracker)
    → Distinct draws
    → All (λ n. has n t ≡ true) draws
    → length draws ≤ length t
length-le-of_All [] t u a = omega arith
length-le-of_All (d ∷ draws) t u a =
    let smaller = length-le-of_All draws (release d t) u.1 (All-release d draws t u.0 a.1) in
    omega (arith, length-release d t a.0)

draw_fresh-cases :
    (t : Tracker) (n : Text) (draws : List Text)
    → ((r : Text × List Text) × (draw_fresh t n draws ≡ some r))
      ⊎ All (λ m. has m t ≡ true) (n ∷ draws)
unfolding draw_fresh
draw_fresh-cases t n [] = elim (Bool-cases (has n t)) [
  | inl old ↦ inr (old, tt)
  | inr new ↦ inl ((n, []), rw new)
]
draw_fresh-cases t n (d ∷ draws) = elim (Bool-cases (has n t)) [
  | inl old ↦ elim (draw_fresh-cases t d draws) [
    | inl (r, e) ↦ inl (r, ground arith)
    | inr a ↦ inr (old, a)
  ]
  | inr new ↦ inl ((n, d ∷ draws), ground arith)
]

fresh_nonce_total :
    (nonce : Option Text) (draws : List Text) (t : Tracker)
    → Distinct draws
    → length t < length draws
    → (r : Text × List Text) × (fresh_nonce nonce draws t ≡ some r)
unfolding fresh_nonce
fresh_nonce_total (some nonce) draws t u h = elim (draw_fresh-cases t nonce draws) [
  | inl r ↦ r
  | inr a ↦ absurd (omega (arith, length-le-of_All draws t u a.1))
]
fresh_nonce_total none [] t u h = absurd (omega arith)
fresh_nonce_total none (d ∷ draws) t u h = elim (draw_fresh-cases t d draws) [
  | inl r ↦ r
  | inr a ↦ absurd (omega (arith, length-le-of_All (d ∷ draws) t u a))
]

-- `reserve` returns, whether or not the caller supplies a nonce, once the source has drawn more
-- nonces than are outstanding, all different when their letters are lowered.
pub reserve_total :
    (nonce : Option Text) (draws : List Text) (t : Tracker)
    → Distinct draws
    → length t < length draws
    → (n : Text) × (t' : Tracker) × (reserve nonce draws t ≡ some (n, t'))
unfolding reserve
reserve_total nonce draws t u h =
    let r = fresh_nonce_total nonce draws t u h in (r.0.0, add r.0.0 t, rw r.1)

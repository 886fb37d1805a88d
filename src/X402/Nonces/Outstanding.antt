-- ===== src/X402/Nonces/Outstanding.antt =====
-- What reserving and releasing do to the outstanding nonces.
use agentct.Base.{
  Text, text_eq, text_eq_iff, lower, includes, includes-append, true, false, not, ◌&&◌, ◌||◌,
  Option, none, some, List, [], ◌∷◌, ◌≡◌, refl, arith, Bool-cases, Option-cases, filter, inl, inr,
}
use mathlib.Core.Path.{subst}
use agentct.X402.Nonces.{Tracker, has, add, draw_fresh, fresh_nonce, reserve, release}

pub has-add :
    (n m : Text) (t : Tracker) → has m (add n t) ≡ (has m t || text_eq (lower n) (lower m))
unfolding has add includes
has-add n m t = elim (Bool-cases (has n t)) [
  | inl old ↦ ground (arith, text_eq_iff (lower n) (lower m))
  | inr new ↦ ground (arith, includes-append t (lower n ∷ []) (lower m))
]

includes-filter :
    (k j : Text) (t : List Text)
    → includes (filter (λ n. not (text_eq n k)) t) j ≡ (includes t j && not (text_eq k j))
unfolding includes
includes-filter k j [] = refl
includes-filter k j (n ∷ t) =
    ground (arith, text_eq_iff n k, text_eq_iff n j, text_eq_iff k j, includes-filter k j t)

pub has-release :
    (n m : Text) (t : Tracker)
    → has m (release n t) ≡ (has m t && not (text_eq (lower n) (lower m)))
unfolding has release
has-release n m t = includes-filter (lower n) (lower m) t

pub has_same : (m n : Text) (t : Tracker) → lower n ≡ lower m → has n t ≡ true → has m t ≡ true
unfolding has
has_same m n t e h = rw (← e) h

draw_fresh-new :
    (t : Tracker) (n : Text) (draws : List Text) {m : Text} {rest : List Text}
    → draw_fresh t n draws ≡ some (m, rest)
    → has m t ≡ false
unfolding draw_fresh
draw_fresh-new t n [] h = ground arith
draw_fresh-new t n (d ∷ draws) {m} {rest} h =
    ground (arith, draw_fresh-new t d draws {m = m} {rest = rest})

fresh_nonce-new :
    (nonce : Option Text) (draws : List Text) (t : Tracker) {m : Text} {rest : List Text}
    → fresh_nonce nonce draws t ≡ some (m, rest)
    → has m t ≡ false
unfolding fresh_nonce
fresh_nonce-new (some nonce) draws t h = draw_fresh-new t nonce draws h
fresh_nonce-new none [] t h = cc
fresh_nonce-new none (d ∷ draws) t h = draw_fresh-new t d draws h

-- A reserved nonce was not outstanding; it is afterwards, and nothing else changes.
pub reserve_lem :
    (nonce : Option Text) (draws : List Text) (t : Tracker) {m : Text} {t' : Tracker}
    → reserve nonce draws t ≡ some (m, t')
    → (has m t ≡ false) × (t' ≡ add m t)
unfolding reserve
reserve_lem nonce draws t {m} {t'} h = elim (Option-cases (fresh_nonce nonce draws t)) [
  | inl e ↦ cc (rw e at h)
  | inr ((n, rest), e) ↦
      let r : ◌≡◌ {A = Option (Text × Tracker)} (some (n, add n t)) (some (m, t')) = rw e at h in
      let same : n ≡ m = ground arith in
      (
        fresh_nonce-new nonce draws t
            (subst (λ (k : Text). fresh_nonce nonce draws t ≡ some (k, rest)) same e),
        ground arith,
      )
]

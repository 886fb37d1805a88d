-- ===== src/Server/Limiter/Bounds.antt =====
-- How many requests of a key the limiter lets through.
use Prim.Native.Nat.{max}
use agentct.Base.{
  ℕ, ◌+◌, ◌-◌, ◌*◌, ◌≤◌, ◌<◌, leb, Text, text_eq, text_eq_iff, text_eq_refl, lookup, lookup-insert,
  true, false, ◌&&◌, Option, none, some, List, [], ◌∷◌, All, ◌≡◌, refl, ap, ◌∙◌, ◌⊎◌, inl, inr,
  arith, if◌then◌else◌, Bool-cases,
}
use agentct.Server.Limiter.{RateLimitOptions, Hit, Hits, allow_entry, allow}

module _ (opts : RateLimitOptions) (key : Text) where
  -- How many of the calls, each a key and a time, are let through for `key`.
  unfoldable pub admitted : List (Text × ℕ) → Hits → ℕ
  admitted [] hits = 0
  admitted ((k, now) ∷ calls) hits =
      let (ok, hits') = allow opts k now hits in
      (if ok && text_eq k key then 1 else 0) + admitted calls hits'

  -- What the entry of `key` lets through at most before it is reset.
  abbrev pub budget : Option Hit → ℕ
  budget none = 0
  budget (some hit) = opts.max - hit.count

  abbrev pub most : ℕ
  most = max 1 opts.max

  entry_same :
      (now : ℕ) (hits : Hits)
      → lookup key (allow opts key now hits).1 ≡ some (allow_entry opts now (lookup key hits)).1
  unfolding allow
  entry_same now hits =
      lookup-insert key key (allow_entry opts now (lookup key hits)).1 hits
      ∙ rw (text_eq_refl key) refl

  entry_other :
      (k : Text) (now : ℕ) (hits : Hits)
      → text_eq k key ≡ false
      → lookup key (allow opts k now hits).1 ≡ lookup key hits
  unfolding allow
  entry_other k now hits h =
      lookup-insert k key (allow_entry opts now (lookup k hits)).1 hits ∙ rw h refl

  admitted_none : (hits : Hits) → admitted [] hits ≡ 0
  unfolding admitted
  admitted_none hits = refl

  admitted-other :
      (k : Text) (now : ℕ) (calls : List (Text × ℕ)) (hits : Hits)
      → text_eq k key ≡ false
      → admitted ((k, now) ∷ calls) hits ≡ admitted calls (allow opts k now hits).1
  unfolding admitted
  admitted-other k now calls hits h = ground arith

  admitted-same :
      (k : Text) (now : ℕ) (calls : List (Text × ℕ)) (hits : Hits)
      → text_eq k key ≡ true
      → admitted ((k, now) ∷ calls) hits
        ≡ (if (allow_entry opts now (lookup key hits)).0 then 1 else 0)
          + admitted calls (allow opts key now hits).1
  unfolding admitted allow
  admitted-same k now calls hits h =
      let named = (text_eq_iff k key).0 h in rw (named, text_eq_refl key) (ground arith)

  -- One call for `key` before the entry is reset.
  spends_budget :
      (end now : ℕ) (hit : Hit)
      → end ≤ hit.reset_at
      → now < end
      → let (ok, hit') = allow_entry opts now (some hit) in
        (end ≤ hit'.reset_at)
        × ((if ok then 1 else 0) + (opts.max - hit'.count) ≤ opts.max - hit.count)
  unfolding allow_entry
  spends_budget end now hit h k = ground arith

  -- Before its entry is reset, a key has no more than the entry's budget.
  admitted-budget :
      (end : ℕ) (calls : List (Text × ℕ)) (hits : Hits) (hit : Hit)
      → lookup key hits ≡ some hit
      → end ≤ hit.reset_at
      → All (λ (c : Text × ℕ). c.1 < end) calls
      → admitted calls hits ≤ opts.max - hit.count
  admitted-budget end [] hits hit e h a = rw (admitted_none hits) (omega arith)
  admitted-budget end ((k, now) ∷ calls) hits hit e h a = elim (Bool-cases (text_eq k key)) [
    | inr other ↦
        let kept = entry_other k now hits other ∙ e in
        rw (admitted-other k now calls hits other)
          (admitted-budget end calls (allow opts k now hits).1 hit kept h a.1)
    | inl same ↦
        let step = spends_budget end now hit h a.0 in
        let next = (allow_entry opts now (some hit)).1 in
        let entry : lookup key (allow opts key now hits).1 ≡ some next =
          entry_same now hits ∙ ap (λ (o : Option Hit). some (allow_entry opts now o).1) e in
        let ih = admitted-budget end calls (allow opts key now hits).1 next entry step.0 a.1 in
        rw (admitted-same k now calls hits same, e) (omega (arith, step.1, ih))
  ]

  -- One call for `key` in a span of one window: the entry's budget pays for it, or a new window begins
  -- that outlasts the span.
  starts_or_spends :
      (start now : ℕ) (o : Option Hit)
      → start ≤ now
      → let (ok, hit') = allow_entry opts now o in
        ((start + opts.window_ms ≤ hit'.reset_at)
          × ((if ok then 1 else 0) + (opts.max - hit'.count) ≤ most))
        ⊎ ((if ok then 1 else 0) + (opts.max - hit'.count) ≤ budget o)
  unfolding allow_entry
  starts_or_spends start now none h = inl (omega arith, ground arith)
  starts_or_spends start now (some hit) h = elim (Bool-cases (leb hit.reset_at now)) [
    | inl over ↦ rw over (inl (omega arith, ground arith))
    | inr lasting ↦ rw lasting (inr (ground arith))
  ]

  admitted-le :
      (start : ℕ) (calls : List (Text × ℕ)) (hits : Hits)
      → All (λ (c : Text × ℕ). (start ≤ c.1) × (c.1 < start + opts.window_ms)) calls
      → admitted calls hits ≤ budget (lookup key hits) + most
  admitted-le start [] hits a = rw (admitted_none hits) (omega arith)
  admitted-le start ((k, now) ∷ calls) hits a = elim (Bool-cases (text_eq k key)) [
    | inr other ↦
        let ih = admitted-le start calls (allow opts k now hits).1 a.1 in
        rw (admitted-other k now calls hits other)
          (rw (← (ap budget (entry_other k now hits other))) ih)
    | inl same ↦
        let next = (allow_entry opts now (lookup key hits)).1 in
        elim (starts_or_spends start now (lookup key hits) a.0.0) [
          | inl (outlasts, cost) ↦
              let ih =
                admitted-budget (start + opts.window_ms) calls (allow opts key now hits).1 next
                  (entry_same now hits) outlasts (upper start calls a.1) in
              rw (admitted-same k now calls hits same) (omega (arith, cost, ih))
          | inr cost ↦
              let ih = admitted-le start calls (allow opts key now hits).1 a.1 in
              let paid = ap budget (entry_same now hits) in
              rw (admitted-same k now calls hits same) (omega (arith, cost, paid, ih))
        ]
  ]
    where
      upper :
          (start : ℕ) (calls : List (Text × ℕ))
          → All (λ (c : Text × ℕ). (start ≤ c.1) × (c.1 < start + opts.window_ms)) calls
          → All (λ (c : Text × ℕ). c.1 < start + opts.window_ms) calls
      upper start [] a = tt
      upper start (c ∷ calls) a = (a.0.1, upper start calls a.1)

  budget-le-most : (o : Option Hit) → budget o ≤ most
  budget-le-most none = omega arith
  budget-le-most (some hit) = omega arith

  -- Of the calls whose times lie within one span as long as the window, in any order and among calls
  -- for other keys, the limiter lets no more through for a key than what the key's running entry has
  -- left (nothing without an entry) and its maximum on top, hence at most twice its maximum. A
  -- maximum of 0 counts as 1.
  pub admitted_bound :
      (start : ℕ) (calls : List (Text × ℕ)) (hits : Hits)
      → All (λ (c : Text × ℕ). (start ≤ c.1) × (c.1 < start + opts.window_ms)) calls
      → (admitted calls hits ≤ budget (lookup key hits) + most) × (admitted calls hits ≤ 2 * most)
  admitted_bound start calls hits a =
      let bound = admitted-le start calls hits a in
      (bound, omega (arith, bound, budget-le-most (lookup key hits)))

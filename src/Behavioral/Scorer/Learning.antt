-- ===== src/Behavioral/Scorer/Learning.antt =====
-- What observing and replaying do to a scorer: bounded memory, the count, and when the forest is
-- trained.
use agentct.Base.{
  ℕ, ◌+◌, ◌-◌, ◌≤◌, length, length-append, drop, length-drop, min, take_last, Text, text_eq, lower,
  includes, set_add, includes-set_add, not, ◌&&◌, some, List, [], ◌∷◌, ◌++◌, ◌≡◌, refl, ap, ◌∙◌,
  arith, if◌then◌else◌,
}
use agentct.Base.Sorting.{sort_by, length-sort_by}
use agentct.Types.{PaymentRequest, AuditEntry}
use agentct.Behavioral.Numbers.{FloatOps}
use agentct.Behavioral.Baseline.{
  extract_features, push_ring, ring_size, update, is_new_counterparty,
}
use agentct.Behavioral.Forest.{new_forest}
use agentct.Behavioral.Scorer.{
  Options, Scorer, max_replay, new_scorer, retrains, observe, observe_entries, hydrate,
}

length-drop_one {ℓ} : {A : Type ℓ} (xs : List A) → length (drop 1 xs) ≡ length xs - 1
length-drop_one [] = omega arith
length-drop_one (x ∷ xs) = omega arith

length-push_ring {ℓ} :
    {A : Type ℓ} (cap : ℕ) (xs : List A) (x : A)
    → length xs ≤ cap
    → length (push_ring cap xs x) ≤ cap
unfolding push_ring
length-push_ring cap xs x h =
    ground (arith, length-append xs (x ∷ []), length-drop_one (xs ++ x ∷ []))

not-includes-set_add :
    (t u : Text) (ss : List Text)
    → not (includes (set_add t ss) u) ≡ (not (includes ss u) && not (text_eq t u))
not-includes-set_add t u ss = ground (arith, includes-set_add t u ss)

module _ (F : FloatOps) (opts : Options) (req : PaymentRequest) (at : ℕ) (s : Scorer) where
  observe-timestamps :
      (observe F opts req at s).baseline.timestamps ≡ push_ring ring_size s.baseline.timestamps at
  unfolding observe update
  observe-timestamps = ground arith

  observe-vectors :
      (observe F opts req at s).baseline.vectors
      ≡ push_ring ring_size s.baseline.vectors (extract_features F req s.baseline at).vector
  unfolding observe update
  observe-vectors = ground arith

  observe-seen :
      (observe F opts req at s).baseline.seen ≡ set_add (lower req.recipient) s.baseline.seen
  unfolding observe update
  observe-seen = ground arith

  observe-count : (observe F opts req at s).observation_count ≡ s.observation_count + 1
  unfolding observe
  observe-count = refl

  observe-forest : (observe F opts req at s).forest ≡ (
      if retrains F opts (observe F opts req at s).observation_count
      then some (new_forest F (observe F opts req at s).baseline.vectors opts.forest)
      else s.forest)
  unfolding observe
  observe-forest = refl

  observe-is_new :
      (addr : Text)
      → is_new_counterparty (observe F opts req at s).baseline addr
        ≡ (is_new_counterparty s.baseline addr && not (text_eq (lower req.recipient) (lower addr)))
  unfolding is_new_counterparty
  observe-is_new addr =
      ap (λ ss. not (includes ss (lower addr))) observe-seen
      ∙ not-includes-set_add (lower req.recipient) (lower addr) s.baseline.seen

  -- On a scorer whose two ring buffers are within their size, an observation is counted, its
  -- recipient is no longer new (and no other is forgotten), the ring buffers stay within their
  -- size, and the forest is trained anew exactly when the count is the minimum or, beyond it, a
  -- multiple of the interval; else it stays.
  pub observe_lem :
      length s.baseline.timestamps ≤ ring_size
      → length s.baseline.vectors ≤ ring_size
      → let s' = observe F opts req at s in
        (s'.observation_count ≡ s.observation_count + 1)
        × ((addr : Text)
            → is_new_counterparty s'.baseline addr ≡ (
                is_new_counterparty s.baseline addr
                && not (text_eq (lower req.recipient) (lower addr))))
        × (length s'.baseline.timestamps ≤ ring_size)
        × (length s'.baseline.vectors ≤ ring_size)
        × (s'.forest ≡ (
            if retrains F opts s'.observation_count
            then some (new_forest F s'.baseline.vectors opts.forest)
            else s.forest))
  observe_lem h k = (
    observe-count,
    observe-is_new,
    rw observe-timestamps (length-push_ring ring_size s.baseline.timestamps at h),
    rw observe-vectors (
        length-push_ring ring_size s.baseline.vectors (extract_features F req s.baseline at).vector
          k),
    observe-forest,
  )

length-take_last {ℓ} :
    {A : Type ℓ} (n : ℕ) (xs : List A) → length (take_last n xs) ≡ min n (length xs)
length-take_last n xs = omega (arith, length-drop (length xs - n) xs)

module _ (F : FloatOps) (opts : Options) where
  observe_entries-count :
      (es : List AuditEntry) (s : Scorer)
      → (observe_entries F opts es s).observation_count ≡ s.observation_count + length es
  unfolding observe_entries
  observe_entries-count [] s = omega arith
  observe_entries-count (e ∷ es) s =
      let s' = observe F opts e.request e.timestamp s in
      omega (arith, observe_entries-count es s', observe-count F opts e.request e.timestamp s)

  -- A rebuilt scorer has learned from the history, but from no more than its last ten thousand
  -- payments.
  pub hydrate-count :
      (es : List AuditEntry)
      → (hydrate F opts es (new_scorer opts)).observation_count ≡ min max_replay (length es)
  unfolding hydrate new_scorer
  hydrate-count es =
      let sorted = sort_by (λ (e : AuditEntry). e.timestamp) es in
      observe_entries-count (take_last max_replay sorted) (new_scorer opts)
      ∙ omega (
        arith,
        length-take_last max_replay sorted,
        length-sort_by (λ (e : AuditEntry). e.timestamp) es,
      )

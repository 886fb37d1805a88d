-- ===== src/Policy/Evaluator/Windows.antt =====
-- The spend windows as plain sums: what one more payment adds, that order does not matter, and that
-- a window only shrinks as time passes.
use agentct.Base.{
  ℕ, ◌+◌, ◌*◌, ◌≤◌, ltb, ℤ, pos, ◌+ℤ◌, ◌≤ℤ◌, int_laws, +ℤ_assoc, zero-+ℤ, Text, text_eq, lower,
  filter, filter-append, length, length-append, All, Bool, true, false, ◌&&◌, List, [], ◌∷◌, ◌++◌,
  ◌≡◌, refl, sym, ap, ap₂, ◌∙◌, arith, if◌then◌else◌,
}
use agentct.Base.Sorting.{sort_by, insert_by}
use agentct.Types.{PaymentRequest, SpendWindow}
use agentct.Policy.Evaluator.{
  SpendRecord, Evaluator, after_cutoff, counted, sum_from, windowed_spend, recent_payment_count,
  observe,
}

-- The sum of the amounts.
abbrev pub spend : List SpendRecord → ℤ
spend [] = pos 0
spend (p ∷ ps) = p.amount +ℤ spend ps

sum_from-spend : (acc : ℤ) (ps : List SpendRecord) → sum_from acc ps ≡ acc +ℤ spend ps
unfolding sum_from
sum_from-spend acc [] = omega int_laws
sum_from-spend acc (p ∷ ps) = sum_from-spend (acc +ℤ p.amount) ps ∙ +ℤ_assoc acc p.amount (spend ps)

pub spend-append : (ps qs : List SpendRecord) → spend (ps ++ qs) ≡ spend ps +ℤ spend qs
spend-append [] qs = omega int_laws
spend-append (p ∷ ps) qs =
    ap (λ s. p.amount +ℤ s) (spend-append ps qs) ∙ sym (+ℤ_assoc p.amount (spend ps) (spend qs))

-- A window is the sum over the records that it counts.
pub windowed_spend-eq :
    (ev : Evaluator) (now : ℕ) (window : SpendWindow) (token : Text)
    → windowed_spend ev now window token
      ≡ spend (filter (counted window (lower token) now) ev.payments)
unfolding windowed_spend
windowed_spend-eq ev now window token =
    sum_from-spend (pos 0) (filter (counted window (lower token) now) ev.payments) ∙ zero-+ℤ _

-- What `observe` writes down.
abbrev pub observed : PaymentRequest → ℕ → SpendRecord
observed req at = record { ts = at; amount = req.amount; token = lower req.token; hydrated = false }

abbrev pub amount_if : Bool → ℤ → ℤ
amount_if b a = if b then a else pos 0

spend_one : (b : Bool) (p : SpendRecord) → spend (if b then p ∷ [] else []) ≡ amount_if b p.amount
spend_one true p = omega int_laws
spend_one false p = refl

counted-observed :
    (window : SpendWindow) (t : Text) (now at : ℕ) (req : PaymentRequest)
    → counted window t now (observed req at)
      ≡ (text_eq (lower req.token) t && after_cutoff window now at)
unfolding counted
counted-observed window t now at req = ground arith

-- An observed payment adds its amount to exactly the windows of its token that it falls into.
pub windowed_spend-observe :
    (ev : Evaluator) (req : PaymentRequest) (at now : ℕ) (window : SpendWindow) (token : Text)
    → windowed_spend (observe ev req at) now window token
      ≡ windowed_spend ev now window token
        +ℤ amount_if
            (text_eq (lower req.token) (lower token) && after_cutoff window now at)
            req.amount
unfolding observe
windowed_spend-observe ev req at now window token =
    let c = counted window (lower token) now in
    windowed_spend-eq (observe ev req at) now window token
    ∙ ap spend (filter-append c ev.payments (observed req at ∷ []))
    ∙ spend-append (filter c ev.payments) (filter c (observed req at ∷ []))
    ∙ ap₂ ◌+ℤ◌ (sym (windowed_spend-eq ev now window token)) (
        spend_one (c (observed req at)) (observed req at)
        ∙ ap (λ b. amount_if b req.amount) (counted-observed window (lower token) now at req))

-- Likewise for the number of payments.
pub recent_payment_count-observe :
    (ev : Evaluator) (req : PaymentRequest) (at now window_seconds : ℕ)
    → recent_payment_count (observe ev req at) now window_seconds
      ≡ recent_payment_count ev now window_seconds
        + (if ltb now (at + window_seconds * 1000) then 1 else 0)
unfolding recent_payment_count observe
recent_payment_count-observe ev req at now window_seconds =
    let c = λ (p : SpendRecord). ltb now (p.ts + window_seconds * 1000) in
    ap length (filter-append c ev.payments (observed req at ∷ []))
    ∙ length-append (filter c ev.payments) (filter c (observed req at ∷ []))
    ∙ ap (λ n. length (filter c ev.payments) + n) (ground arith)

abbrev pub AllNonneg : List SpendRecord → Type 0
AllNonneg = All (λ p. pos 0 ≤ℤ p.amount)

spend-filter-mono :
    (p q : SpendRecord → Bool) (ps : List SpendRecord)
    → ((r : SpendRecord) → p r ≡ true → q r ≡ true)
    → AllNonneg ps
    → spend (filter p ps) ≤ℤ spend (filter q ps)
spend-filter-mono p q [] h n = omega arith
spend-filter-mono p q (r ∷ ps) h (n, ns) = grind (int_laws, h r, spend-filter-mono p q ps h ns)

length-filter_mono :
    (p q : SpendRecord → Bool) (ps : List SpendRecord)
    → ((r : SpendRecord) → p r ≡ true → q r ≡ true)
    → length (filter p ps) ≤ length (filter q ps)
length-filter_mono p q [] h = omega arith
length-filter_mono p q (r ∷ ps) h = ground (arith, h r, length-filter_mono p q ps h)

counted_later :
    (window : SpendWindow) (t : Text) (now later : ℕ) (p : SpendRecord)
    → now ≤ later
    → counted window t later p ≡ true
    → counted window t now p ≡ true
unfolding counted
counted_later SpendWindow.hour t now later p h c = ground arith
counted_later SpendWindow.day t now later p h c = ground arith
counted_later _ t now later p h c = c

-- With no negative amounts, what a window holds can only fall as time passes.
pub windowed_spend_later :
    (ev : Evaluator) (now later : ℕ) (window : SpendWindow) (token : Text)
    → AllNonneg ev.payments
    → now ≤ later
    → windowed_spend ev later window token ≤ℤ windowed_spend ev now window token
windowed_spend_later ev now later window token n h = rw (windowed_spend-eq ev later window token) (
    rw (windowed_spend-eq ev now window token) (
      spend-filter-mono (counted window (lower token) later) (counted window (lower token) now)
        ev.payments (λ p. counted_later window (lower token) now later p h) n))

pub recent_payment_count_later :
    (ev : Evaluator) (now later window_seconds : ℕ)
    → now ≤ later
    → recent_payment_count ev later window_seconds ≤ recent_payment_count ev now window_seconds
unfolding recent_payment_count
recent_payment_count_later ev now later window_seconds h =
    length-filter_mono (λ p. ltb later (p.ts + window_seconds * 1000))
      (λ p. ltb now (p.ts + window_seconds * 1000)) ev.payments (λ p e. ground arith)

-- Sorting leaves every filtered sum and count as it was.
module _ (key : SpendRecord → ℕ) (c : SpendRecord → Bool) where
  spend-insert_by :
      (p : SpendRecord) (ps : List SpendRecord)
      → spend (filter c (insert_by key p ps)) ≡ spend (filter c (p ∷ ps))
  unfolding insert_by
  spend-insert_by p [] = refl
  spend-insert_by p (q ∷ ps) = grind (int_laws, spend-insert_by p ps)

  pub spend-sort_by :
      (ps : List SpendRecord) → spend (filter c (sort_by key ps)) ≡ spend (filter c ps)
  unfolding sort_by
  spend-sort_by [] = refl
  spend-sort_by (p ∷ ps) = grind (int_laws, spend-insert_by p (sort_by key ps), spend-sort_by ps)

  count-insert_by :
      (p : SpendRecord) (ps : List SpendRecord)
      → length (filter c (insert_by key p ps)) ≡ length (filter c (p ∷ ps))
  unfolding insert_by
  count-insert_by p [] = refl
  count-insert_by p (q ∷ ps) = ground (arith, count-insert_by p ps)

  pub count-sort_by :
      (ps : List SpendRecord) → length (filter c (sort_by key ps)) ≡ length (filter c ps)
  unfolding sort_by
  count-sort_by [] = refl
  count-sort_by (p ∷ ps) = ground (arith, count-insert_by p (sort_by key ps), count-sort_by ps)

-- ===== src/Guard/Fetch/Recorded.antt =====
-- The audit rows of the guarded fetch: each decision is written once, still waits for the response, or is
-- lost in an error of the escalation callback.
use agentct.Base.{
  ℕ, ◌+◌, Text, length, length-append, filter, Bool, true, false, not, Option, none, some, List, [],
  ◌∷◌, ◌≡◌, refl, ap, inl, inr, arith, Bool-cases,
}
use agentct.Types.{PaymentRequest, PolicyDecision, AuditEntry}
use agentct.X402.Inspect.{Payload}
use agentct.X402.Interceptor.{Pending, IntentStore, requirements_to_payment_request}
use agentct.Guard.State.{SettleResponse, Outside, GuardConfig, Guard, Instants}
use agentct.Guard.Evaluation.{run_guard, evaluate}
use agentct.Guard.Payment.{record_entry, learn}
use agentct.Guard.Fetch.{
  Request, Hook, continues, aborts, throws, Event, before_payment, after_payment, payment_response,
  decided, asked, on_before_payment_creation, on_after_payment_creation, answered,
  on_payment_response, on_event, go_on, run_events, learned,
}

-- The decisions of a request that no row holds yet.
abbrev pub unrecorded : List Pending → ℕ
unrecorded pending = length (filter (λ (p : Pending). not p.recorded) pending)

-- Rows and decisions that wait for one.
abbrev pub accounted : Request → ℕ
accounted r = length r.guard.log + unrecorded r.store.pending

module _ (out : Outside) (cfg : GuardConfig) where
  -- The request that an event makes the guard decide on: that of a payment not yet made, where its
  -- amount can be read.
  abbrev pub decided_on : Event → Request → Option PaymentRequest
  decided_on (before_payment _ requirements _) r =
      requirements_to_payment_request requirements cfg.agent_id r.store
  decided_on (after_payment _) r = none
  decided_on (payment_response _ _ _) r = none

  abbrev one_if {ℓ} : {A : Type ℓ} → Option A → ℕ
  one_if none = 0
  one_if (some _) = 1

  -- One for a decision whose escalation callback throws.
  abbrev pub unanswered : Option Bool → ℕ
  unanswered none = 1
  unanswered (some _) = 0

  abbrev pub lost_on : Option PaymentRequest → Instants → Request → ℕ
  lost_on none at r = 0
  lost_on (some req) at r = unanswered (run_guard out cfg r.guard req at).0

  abbrev pub lost_in : Event → Request → ℕ
  lost_in (before_payment id requirements at) r =
      lost_on (decided_on (before_payment id requirements at) r) at r
  lost_in (after_payment _) r = 0
  lost_in (payment_response _ _ _) r = 0

  abbrev further : (Request → ℕ) → Hook × Request → ℕ
  further f (continues, r) = f r
  further f (aborts, r) = 0
  further f (throws, r) = 0

  -- The decisions that the guard makes while the events run.
  unfoldable pub decisions : List Event → Request → ℕ
  decisions [] r = 0
  decisions (e ∷ es) r = one_if (decided_on e r) + further (decisions es) (on_event out cfg e r)

  -- Those of them that end in an error of the escalation callback.
  unfoldable pub lost : List Event → Request → ℕ
  lost [] r = 0
  lost (e ∷ es) r = lost_in e r + further (lost es) (on_event out cfg e r)

  run_guard-log :
      (g : Guard) (req : PaymentRequest) (at : Instants)
      → (run_guard out cfg g req at).2.log ≡ g.log
  unfolding run_guard evaluate
  run_guard-log g req at = refl

  decided-accounted :
      (id : Text) (req : PaymentRequest) (at : Instants) (store : IntentStore) (ok : Option Bool)
      (decision : PolicyDecision) (g : Guard)
      → accounted (decided out cfg id req at store ok decision g).1 + unanswered ok
        ≡ length g.log + unrecorded store.pending + 1
  unfolding decided record_entry
  decided-accounted id req at store none decision g = omega arith
  decided-accounted id req at store (some false) decision g = omega (arith, length-append {0})
  decided-accounted id req at store (some true) decision g = omega arith

  asked-accounted :
      (id : Text) (at : Instants) (o : Option PaymentRequest) (r : Request)
      → accounted (asked out cfg id at o r).1 + lost_on o at r ≡ accounted r + one_if o
  unfolding asked
  asked-accounted id at none r = omega arith
  asked-accounted id at (some req) r =
      let (ok, decision, g) = run_guard out cfg r.guard req at in
      omega (
        arith,
        decided-accounted id req at r.store ok decision g,
        ap (length {A = AuditEntry}) (run_guard-log r.guard req at),
      )

  learned-log :
      (response : Option SettleResponse) (req : PaymentRequest) (at : Instants) (g : Guard)
      → (learned out cfg response req at g).log ≡ g.log
  unfolding learn
  learned-log none req at g = refl
  learned-log (some s) req at g = ground arith

  answered-accounted :
      (id : Text) (response : Option SettleResponse) (at : Instants) (g : Guard)
      (store : IntentStore) (pending : List Pending)
      → store.pending ≡ pending
      → accounted (answered out cfg id response at g store pending)
        ≡ length g.log + unrecorded pending
  unfolding answered record_entry
  answered-accounted id response at g store [] e = rw e refl
  answered-accounted id response at g store (p ∷ rest) e =
      let same = ap (λ (rows : List AuditEntry). length rows) (learned-log response p.req at g) in
      elim (Bool-cases p.recorded) [
        | inl done ↦ rw done (omega (arith, same))
        | inr waiting ↦ rw waiting (omega (arith, same, length-append {0}))
      ]

  after_payment-unchanged :
      (payload : Payload) (r : Request) → (on_after_payment_creation out cfg payload r).1 ≡ r
  unfolding on_after_payment_creation
  after_payment-unchanged payload r = ground arith

  on_event-accounted :
      (e : Event) (r : Request)
      → accounted (on_event out cfg e r).1 + lost_in e r ≡ accounted r + one_if (decided_on e r)
  unfolding on_event on_before_payment_creation on_payment_response
  on_event-accounted (before_payment id requirements at) r =
      asked-accounted id at (requirements_to_payment_request requirements cfg.agent_id r.store) r
  on_event-accounted (after_payment payload) r =
      omega (arith, ap accounted (after_payment-unchanged payload r))
  on_event-accounted (payment_response id response at) r =
      omega (arith, answered-accounted id response at r.guard r.store r.store.pending refl)

  -- While the x402 library runs a request through the guarded fetch, whatever events it raises and in
  -- whatever order, every decision that the guard makes on a payment's requirements is accounted for
  -- exactly once: as a row of the audit log, as a decision that still waits for the server's response,
  -- or as one on an escalation whose callback throws, which leaves neither.
  pub run_events-accounted :
      (events : List Event) (r : Request)
      → accounted (run_events out cfg events r).1 + lost events r ≡ accounted r + decisions events r
  unfolding run_events decisions lost
  run_events-accounted [] r = omega arith
  run_events-accounted (e ∷ events) r =
      step (on_event out cfg e r) (on_event-accounted e r) (run_events-accounted events)
    where
      step :
          (p : Hook × Request)
          → accounted p.1 + lost_in e r ≡ accounted r + one_if (decided_on e r)
          → ((q : Request)
              → accounted (run_events out cfg events q).1 + lost events q
                ≡ accounted q + decisions events q)
          → accounted (go_on (run_events out cfg events) p).1
              + (lost_in e r + further (lost events) p)
            ≡ accounted r + (one_if (decided_on e r) + further (decisions events) p)
      step (continues, q) h ih = omega (arith, h, ih q)
      step (aborts, q) h ih = omega (arith, h)
      step (throws, q) h ih = omega (arith, h)

-- ===== src/Guard/Execution.antt =====
-- `execute` of packages/core/src/index.ts: what each ending leaves behind, and what a settled payment
-- presupposes.
use agentct.Base.{
  Text, Bool, true, false, Option, none, some, List, [], ◌∷◌, ◌++◌, append-nil, ◌≡◌, refl, sym, ap,
  inl, inr, Bool-cases, if◌then◌else◌,
}
use agentct.Types.{PaymentRequest, PolicyDecision, Settlement, AuditEntry}
use agentct.X402.Chains.{ChainConfig, get_chain}
use agentct.X402.Inspect.{Payload, authorization_matches, PaysAs, authorization_matches_iff}
use agentct.Guard.State.{Outside, GuardConfig, Guard, Instants, SettleResponse}
use agentct.Guard.Evaluation.{evaluate, decide, allowed, run_guard}
use agentct.Guard.Payment.{
  Failure, Executed, new_entry, record_entry, learn, settlement_of, finish, submit, pay, proceed,
  execute,
}

-- Whether money moved.
abbrev pub is_paid : Executed → Bool
is_paid (Executed.settled decision s) = s.success
is_paid _ = false

module _ (out : Outside) (cfg : GuardConfig) where
  -- The rows that an ending writes.
  abbrev pub logged : Text → PaymentRequest → Instants → Executed → List AuditEntry
  logged id req at (Executed.refused decision) =
      new_entry out cfg id req decision none at.logged_at ∷ []
  logged id req at (Executed.settled decision s) =
      new_entry out cfg id req decision (some s) at.logged_at ∷ []
  logged id req at (Executed.threw _) = []

  abbrev pub append_log : List AuditEntry → Guard → Guard
  append_log rows g = record g { log = g.log ++ rows }

  -- The guard that an ending leaves, from the one that decided.
  abbrev pub after : Text → PaymentRequest → Instants → Executed → Guard → Guard
  after id req at o g =
      append_log (logged id req at o) (if is_paid o then learn out cfg req at g else g)

  no_rows : (g : Guard) → g ≡ append_log [] g
  no_rows g = ap (λ rows. record g { log = rows }) (sym (append-nil g.log))

  finish-after :
      (id : Text) (req : PaymentRequest) (decision : PolicyDecision) (at : Instants)
      (r : Option SettleResponse) (g : Guard)
      → let (o, g') = finish out cfg id req decision at r g in g' ≡ after id req at o g
  unfolding finish record_entry
  finish-after id req decision at none g = no_rows g
  finish-after id req decision at (some r) g = refl

  submit-after :
      (id : Text) (req : PaymentRequest) (decision : PolicyDecision) (at : Instants)
      (payload : Option Payload) (g : Guard)
      → let (o, g') = submit out cfg id req decision at payload g in g' ≡ after id req at o g
  unfolding submit
  submit-after id req decision at none g = no_rows g
  submit-after id req decision at (some payload) g = by_match (authorization_matches payload req)
    where
      by_match :
          (b : Bool)
          → let (o, g') =
              if b
              then finish out cfg id req decision at (out.settle payload req) g
              else (Executed.threw Failure.mismatch, g) in
            g' ≡ after id req at o g
      by_match true = finish-after id req decision at (out.settle payload req) g
      by_match false = no_rows g

  pay-after :
      (id : Text) (req : PaymentRequest) (decision : PolicyDecision) (at : Instants) (ready : Bool)
      (chain : Option ChainConfig) (g : Guard)
      → let (o, g') = pay out cfg id req decision at ready chain g in g' ≡ after id req at o g
  unfolding pay
  pay-after id req decision at false chain g = no_rows g
  pay-after id req decision at true none g = no_rows g
  pay-after id req decision at true (some chain) g =
      submit-after id req decision at (out.create_payload req) g

  -- What an ending leaves, from the decision on.
  pub proceed-after :
      (id : Text) (req : PaymentRequest) (at : Instants) (ok : Option Bool)
      (decision : PolicyDecision) (g : Guard)
      → let (o, g') = proceed out cfg id req at ok decision g in g' ≡ after id req at o g
  unfolding proceed record_entry
  proceed-after id req at none decision g = no_rows g
  proceed-after id req at (some false) decision g = refl
  proceed-after id req at (some true) decision g =
      pay-after id req decision at out.spine_ready (get_chain req.chain) g

  -- What a call of `execute` leaves. It appends one row to the audit log where it refuses the
  -- payment or the facilitator answers, and none where it throws; the spend records, the baseline
  -- and the payee bindings learn the payment exactly if it settled with success; the rest is as the
  -- decision left it.
  pub execute-after :
      (id : Text) (g : Guard) (req : PaymentRequest) (at : Instants)
      → let (o, g') = execute out cfg id g req at in
        g' ≡ after id req at o (run_guard out cfg g req at).2
  unfolding execute
  execute-after id g req at =
      let ran = run_guard out cfg g req at in proceed-after id req at ran.0 ran.1 ran.2

  -- From the facilitator on: nothing else than an answer settles.
  finish-settled :
      (id : Text) (req : PaymentRequest) (decision d : PolicyDecision) (at : Instants)
      (r : Option SettleResponse) (g : Guard) (s : Settlement)
      → (finish out cfg id req decision at r g).0 ≡ Executed.settled d s
      → (d ≡ decision)
        × ((answer : SettleResponse) × (r ≡ some answer) × (s ≡ settlement_of out cfg answer))
  unfolding finish
  finish-settled id req decision d at none g s h = cc
  finish-settled id req decision d at (some answer) g s h = (cc, (answer, refl, cc))

  -- What the wallet and the facilitator did.
  pub record Paid (req : PaymentRequest) (s : Settlement) : Type 0 where
    pub payload : Payload
    pub signed : out.create_payload req ≡ some payload
    pub pays : PaysAs payload req
    pub answer : SettleResponse
    pub answered : out.settle payload req ≡ some answer
    pub same : s ≡ settlement_of out cfg answer

  submit-settled :
      (id : Text) (req : PaymentRequest) (decision d : PolicyDecision) (at : Instants)
      (signed : Option Payload) (g : Guard) (s : Settlement)
      → out.create_payload req ≡ signed
      → (submit out cfg id req decision at signed g).0 ≡ Executed.settled d s
      → (d ≡ decision) × Paid req s
  unfolding submit
  submit-settled id req decision d at none g s e h = cc
  submit-settled id req decision d at (some payload) g s e h =
      elim (Bool-cases (authorization_matches payload req)) [
        | inl matches ↦
            let (same, (answer, answered, settlement)) =
              finish-settled id req decision d at (out.settle payload req) g s (rw matches at h) in
            (
              same,
              record {
                payload = payload;
                signed = e;
                pays = (authorization_matches_iff payload req).0 matches;
                answer = answer;
                answered = answered;
                same = settlement;
              },
            )
        | inr differs ↦ cc (rw differs at h)
      ]

  pay-settled :
      (id : Text) (req : PaymentRequest) (decision d : PolicyDecision) (at : Instants)
      (ready : Bool) (chain : Option ChainConfig) (g : Guard) (s : Settlement)
      → (pay out cfg id req decision at ready chain g).0 ≡ Executed.settled d s
      → (d ≡ decision) × Paid req s
  unfolding pay
  pay-settled id req decision d at false chain g s h = cc
  pay-settled id req decision d at true none g s h = cc
  pay-settled id req decision d at true (some chain) g s h =
      submit-settled id req decision d at (out.create_payload req) g s refl h

  -- What stands behind a settlement, from the decision on.
  pub proceed-settled :
      (id : Text) (req : PaymentRequest) (at : Instants) (ok : Option Bool)
      (decision d : PolicyDecision) (g : Guard) (s : Settlement)
      → (proceed out cfg id req at ok decision g).0 ≡ Executed.settled d s
      → (d ≡ decision) × (ok ≡ some true) × Paid req s
  unfolding proceed
  proceed-settled id req at none decision d g s h = cc
  proceed-settled id req at (some false) decision d g s h = cc
  proceed-settled id req at (some true) decision d g s h =
      let (same, paid) =
        pay-settled id req decision d at out.spine_ready (get_chain req.chain) g s h in
      (same, refl, paid)

  -- A settlement never comes without a decision that let the payment go on (an allow, or an
  -- escalation that the operator's callback approved), a payload from the wallet, and the
  -- facilitator's answer to that very payload. A payload of EIP-3009 or Permit2 pays the approved
  -- recipient the approved amount, and in the approved token where it names one. Of a payload of any
  -- other scheme nothing is compared, and nothing is stated of what it pays.
  pub execute-settled :
      (id : Text) (g : Guard) (req : PaymentRequest) (at : Instants) (d : PolicyDecision)
      (s : Settlement)
      → (execute out cfg id g req at).0 ≡ Executed.settled d s
      → (d ≡ decide out cfg g req at) × (allowed out cfg req d d.verdict ≡ some true) × Paid req s
  unfolding execute run_guard evaluate
  execute-settled id g req at d s h =
      let ran = run_guard out cfg g req at in
      let (same, ok, paid) = proceed-settled id req at ran.0 ran.1 d ran.2 s h in
      (same, rw same ok, paid)

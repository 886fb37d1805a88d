-- ===== src/Integrations/Tools.antt =====
-- A wrapped tool runs only behind a payment that was decided and settled.
use agentct.Base.{
  Text, Option-cases, some, true, false, Bool, inl, inr, ◌≡◌, refl, sym, ap, ◌∙◌, if◌then◌else◌,
}
use agentct.Types.{PaymentRequest, PolicyDecision, Settlement}
use agentct.Policy.Compiler.{Units}
use agentct.Guard.State.{Outside, GuardConfig, Guard, Instants}
use agentct.Guard.Evaluation.{decide, allowed}
use agentct.Guard.Payment.{Executed, refused, settled, threw, execute}
use agentct.Guard.Execution.{Paid, execute-settled}
use agentct.Integrations.{
  PaymentToolInput, ToolResult, ran, blocked, to_payment_request, run_tool, pay_and_run,
  wrap_payment_tool,
}

module _ {ℓ} {R : Type ℓ} (dollars : Units) (out : Outside) (cfg : GuardConfig) where
  -- What stands behind a tool that ran.
  pub record Behind (run : PaymentToolInput → Settlement → R) (input : PaymentToolInput) (id : Text)
      (at : Instants) (g : Guard) (r : R) : Type ℓ where
    pub req : PaymentRequest
    pub decision : PolicyDecision
    pub settlement : Settlement
    pub asked : to_payment_request dollars input cfg.agent_id ≡ some req
    pub decided : decision ≡ decide out cfg g req at
    pub let_through : allowed out cfg req decision decision.verdict ≡ some true
    pub paid : Paid out cfg req settlement
    pub succeeded : settlement.success ≡ true
    pub worked : r ≡ run input settlement

  chosen :
      (b : Bool) (x : R) (d : PolicyDecision) {r : R}
      → ◌≡◌ {A = ToolResult R} (if b then ran x else blocked d) (ran r)
      → (b ≡ true) × (x ≡ r)
  chosen true x d h = (refl, cc)
  chosen false x d h = cc

  run_tool-ran :
      (run : PaymentToolInput → Settlement → R) (input : PaymentToolInput) (e : Executed)
      (g : Guard) {r : R}
      → (run_tool dollars out cfg run input (e, g)).0 ≡ ran r
      → (d : PolicyDecision) × (s : Settlement) × (e ≡ settled d s)
        × (s.success ≡ true)
        × (r ≡ run input s)
  unfolding run_tool
  run_tool-ran run input (refused d) g h = cc
  run_tool-ran run input (threw f) g h = cc
  run_tool-ran run input (settled d s) g {r} h =
      let (good, same) = chosen s.success (run input s) d h in (d, s, refl, good, sym same)

  -- The work of a wrapped tool is done only behind a payment: the tool's arguments made a request, the
  -- guard's decision on it let it go on, the payload for it settled and the facilitator reports
  -- success, and the work gets that settlement.
  pub wrap_payment_tool-ran :
      (run : PaymentToolInput → Settlement → R) (input : PaymentToolInput) (id : Text)
      (at : Instants) (g : Guard) (r : R)
      → (wrap_payment_tool dollars out cfg run input id at g).0 ≡ ran r
      → Behind run input id at g r
  unfolding wrap_payment_tool pay_and_run
  wrap_payment_tool-ran run input id at g r h =
      elim (Option-cases (to_payment_request dollars input cfg.agent_id)) [
        | inl e ↦
            let k : ◌≡◌ {A = ToolResult R} ToolResult.failed (ran r) =
              sym (ap (λ o. (pay_and_run dollars out cfg run input id at g o).0) e) ∙ h in
            cc
        | inr (req, e) ↦
            let k = sym (ap (λ o. (pay_and_run dollars out cfg run input id at g o).0) e) ∙ h in
            let done = execute out cfg id g req at in
            let (d, s, ends, good, result) = run_tool-ran run input done.0 done.1 {r = r} k in
            let (same, ok, paid) = execute-settled out cfg id g req at d s ends in
            record {
              req = req;
              decision = d;
              settlement = s;
              asked = e;
              decided = same;
              let_through = ok;
              paid = paid;
              succeeded = good;
              worked = result;
            }
      ]

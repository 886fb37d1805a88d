-- ===== src/Integrations.antt =====
-- packages/core/src/integrations.ts: a payment tool of an agent, put behind the guard.
pub mod Tools
use agentct.Base.{
  ℕ, ℤ, Text, codes, text_eq, lower, is_empty, or_else, Bool, true, false, ◌||◌, Option, none, some,
  List, [], ◌∷◌, if◌then◌else◌,
}
use agentct.Base.Double.{Double}
use agentct.Types.{PaymentRequest, PolicyDecision, Settlement}
use agentct.X402.Chains.{ChainConfig, get_chain}
use agentct.Policy.Compiler.{Units, usd_to_token_units}
use agentct.Guard.State.{Outside, GuardConfig, Guard, Instants}
use agentct.Guard.Payment.{Failure, Executed, refused, settled, threw, execute}

-- Token units, or US dollars as a number (a text is read as one by the platform).
pub data ToolAmount : Type 0 where
  units : ℤ → ToolAmount
  usd : Double → ToolAmount

pub record PaymentToolInput : Type 0 where
  pub intent : Option Text
  pub reason : Option Text
  pub amount : ToolAmount
  pub token : Option Text
  pub recipient : Text
  pub chain : Option Text

-- `!input.token || input.token.toUpperCase() === "USDC" ? cfg.usdc : input.token`
unfoldable pub tool_token : ChainConfig → Option Text → Text
unfolding lower
tool_token cfg none = cfg.usdc
tool_token cfg (some t) = if is_empty t || text_eq (lower t) (codes "usdc") then cfg.usdc else t

-- How a tool ends: it is blocked, it ran, or an error was thrown before it ran.
pub data ToolResult {ℓ} (R : Type ℓ) : Type ℓ where
  blocked : PolicyDecision → ToolResult R
  ran : R → ToolResult R
  failed : ToolResult R

module _ (dollars : Units) where
  unfoldable pub tool_amount : ToolAmount → Option ℤ
  unfolding usd_to_token_units
  tool_amount (units n) = some n
  tool_amount (usd d) = usd_to_token_units dollars d

  -- `none` is an error thrown.
  unfoldable pub to_payment_request : PaymentToolInput → (agent_id : Text) → Option PaymentRequest
  unfolding tool_amount tool_token
  to_payment_request input agent_id =
      let chain = or_else input.chain (codes "eip155:84532") in
      elim (get_chain chain) [
        | none ↦ none
        | some cfg ↦ elim (tool_amount input.amount) [
          | none ↦ none
          | some amount ↦ some (record {
            intent = or_else input.intent (or_else input.reason (codes "tool payment"));
            amount = amount;
            token = tool_token cfg input.token;
            recipient = input.recipient;
            chain = chain;
            agent_id = agent_id;
            resource_url = none;
          })
        ]
      ]

  module _ {ℓ} {R : Type ℓ} (out : Outside) (cfg : GuardConfig) where
    -- The tool's own work happens behind a payment that settled.
    unfoldable pub run_tool :
        (PaymentToolInput → Settlement → R)
        → PaymentToolInput
        → Executed × Guard
        → ToolResult R × Guard
    run_tool run input (refused decision, g) = (blocked decision, g)
    run_tool run input (settled decision s, g) =
        (if s.success then ran (run input s) else blocked decision, g)
    run_tool run input (threw f, g) = (failed, g)

    unfoldable pub pay_and_run :
        (PaymentToolInput → Settlement → R)
        → PaymentToolInput
        → Text
        → Instants
        → Guard
        → Option PaymentRequest
        → ToolResult R × Guard
    unfolding run_tool
    pay_and_run run input id at g none = (failed, g)
    pay_and_run run input id at g (some req) = run_tool run input (execute out cfg id g req at)

    -- The function that `wrapPaymentTool` returns.
    unfoldable pub wrap_payment_tool :
        (PaymentToolInput → Settlement → R)
        → PaymentToolInput
        → Text
        → Instants
        → Guard
        → ToolResult R × Guard
    unfolding pay_and_run to_payment_request
    wrap_payment_tool run input id at g =
        pay_and_run run input id at g (to_payment_request input cfg.agent_id)

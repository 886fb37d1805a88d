-- ===== src/Guard/Verdict.antt =====
-- The two helpers of packages/core/src/index.ts that decide on a list of checks: `validateRequest`
-- before the layers run, and `aggregateVerdict` with `buildReason` behind them. viem's `isAddress`
-- is the parameter `is_address`, whose first argument is its option `strict`.
pub mod Meaning
use agentct.Base.{
  ℕ, suc, ◌+◌, leb, ◌==◌, ℤ, pos, leb_ℤ, Text, codes, starts_with, index_of, take, drop, all, any,
  filter, length, Bool, true, false, not, ◌&&◌, ◌||◌, Option, none, some, List, [], ◌∷◌, map,
  if◌then◌else◌,
}
use agentct.Base.Double.{Double, le}
use agentct.Types.{
  PaymentRequest, PolicyCheck, Severity, Message, RequestField, AddressProblem, Verdict, Reason,
  AnomalyAction,
}

abbrev pub evm : Text
evm = codes "eip155:"

abbrev digit : ℕ → Bool
digit c = leb 48 c && leb c 57

abbrev small : ℕ → Bool
small c = leb 97 c && leb c 122

abbrev capital : ℕ → Bool
capital c = leb 65 c && leb c 90

-- `[a-z0-9-]` and `[a-zA-Z0-9._-]`
abbrev pub namespace_char : ℕ → Bool
namespace_char c = small c || digit c || (c == 45)

abbrev pub reference_char : ℕ → Bool
reference_char c = small c || capital c || digit c || (c == 46) || (c == 95) || (c == 45)

abbrev pub within : ℕ → ℕ → Text → Bool
within lo hi s = leb lo (length s) && leb (length s) hi

abbrev split_ok : Text → Option ℕ → Bool
split_ok s none = false
split_ok s (some i) =
    let namespace = take i s in
    let reference = drop (i + 1) s in
    all namespace_char namespace
    && within 3 8 namespace
    && all reference_char reference
    && within 1 32 reference

-- The regular expression for a CAIP-2 id. Neither class holds a colon, so the first one splits.
unfoldable pub is_caip2 : Text → Bool
unfolding index_of
is_caip2 s = split_ok s (index_of 58 s)

abbrev pub bad : Text → Message → PolicyCheck
bad id message = record { id = id; passed = false; severity = Severity.critical; message = message }

module _ (is_address : Bool → Text → Bool) where
  unfoldable pub address_problem : Text → Option AddressProblem
  address_problem value =
      if not (is_address false value)
      then some AddressProblem.not_an_address
      else if not (is_address true value)
      then some AddressProblem.bad_checksum
      else none

  abbrev pub field_id : RequestField → Text
  field_id RequestField.recipient = codes "invalid-recipient"
  field_id RequestField.token = codes "invalid-token"

  -- One round of the loop over the two addresses.
  unfoldable pub check_field : RequestField → Text → Option PolicyCheck
  unfolding address_problem
  check_field field value = elim (address_problem value) [
    | none ↦ none
    | some problem ↦ some (bad (field_id field) (Message.bad_address field problem value))
  ]

  -- `if (x) return x;`, with what follows as the second argument.
  abbrev pub first : Option PolicyCheck → Option PolicyCheck → Option PolicyCheck
  first none rest = rest
  first (some c) rest = some c

  unfoldable pub validate_request : PaymentRequest → Option PolicyCheck
  unfolding check_field is_caip2
  validate_request req =
      if leb_ℤ req.amount (pos 0)
      then some (bad (codes "invalid-amount") (Message.amount_not_positive req.amount))
      else first
          (if starts_with req.chain evm
            then first (check_field RequestField.recipient req.recipient)
                (check_field RequestField.token req.token)
            else none)
          (if not (is_caip2 req.chain)
            then some (bad (codes "invalid-chain") (Message.bad_chain req.chain))
            else none)

abbrev pub critical : Severity → Bool
critical Severity.critical = true
critical _ = false

abbrev pub is_behavioral : PolicyCheck → Bool
is_behavioral c = starts_with c.id (codes "behavioral-")

abbrev pub hard : PolicyCheck → Bool
hard c = not c.passed && critical c.severity && not (is_behavioral c)

abbrev pub soft : PolicyCheck → Bool
soft c = not c.passed && critical c.severity && is_behavioral c

abbrev pub to_block : AnomalyAction → Bool
to_block AnomalyAction.block = true
to_block AnomalyAction.escalate = false

unfoldable pub anomaly_triggered : List PolicyCheck → (score threshold : Double) → Bool
anomaly_triggered checks score threshold = le threshold score || any soft checks

unfoldable pub aggregate_verdict :
    List PolicyCheck
    → (score threshold : Double) → AnomalyAction
    → (policy_escalate : Bool) → Verdict
unfolding anomaly_triggered
aggregate_verdict checks score threshold action policy_escalate =
    let triggered = anomaly_triggered checks score threshold in
    if any hard checks || (triggered && to_block action)
    then Verdict.block
    else if policy_escalate || (triggered && not (to_block action))
    then Verdict.escalate
    else Verdict.allow

-- The words are left out: the risk, and the messages of the checks that failed.
unfoldable pub build_reason : Verdict → List PolicyCheck → Double → Reason
build_reason Verdict.allow checks score = Reason.allowed score
build_reason verdict checks score =
    Reason.refused verdict score (map (λ c. c.message) (filter (λ c. not c.passed) checks))

-- ===== src/Server/Requests.antt =====
-- What the handler of packages/server/src/index.ts reads from a request: the route of an approval and
-- the payment in a body. The platform's URL and JSON parsers are parameters.
use agentct.Base.{
  ℕ, ℤ, Text, codes, text_eq, is_empty, trim, drop, starts_with, index_of, take, Bool, true, false,
  Option, none, some, [], if◌then◌else◌,
}
use agentct.Base.Js.{Value, null, str, obj, no_fields, get_member}
use agentct.Types.{PaymentRequest}
use agentct.Policy.Serde.{Json, big_of}

-- A request, as far as it is read. `path` is `none` where the URL does not parse, and `body` where
-- the stream fails.
pub record HttpRequest : Type 0 where
  pub method : Option Text
  pub path : Option Text
  pub remote : Option Text
  pub authorization : Option Text
  pub body : Option Text

-- `[^/]+` and a slash: what stands before the first slash, if it is not empty, and behind it.
abbrev pub cut : Text → Option ℕ → Option (Text × Text)
cut s none = none
cut s (some n) = if is_empty (take n s) then none else some (take n s, drop n (drop 1 s))

unfoldable pub segment : Text → Option (Text × Text)
segment s = cut s (index_of 47 s)

abbrev pub verb : Text × Text → Option (Text × Bool)
verb (id, action) =
    if text_eq action (codes "approve")
    then some (id, true)
    else if text_eq action (codes "deny")
    then some (id, false)
    else none

abbrev pub verb_of : Option (Text × Text) → Option (Text × Bool)
verb_of none = none
verb_of (some s) = verb s

-- `/^\/approvals\/([^/]+)\/(approve|deny)$/`, with whether the action is to approve.
unfoldable pub approval_route : Text → Option (Text × Bool)
approval_route path =
    if starts_with path (codes "/approvals/") then verb_of (segment (drop 11 path)) else none

-- What a body makes: a payment, an error thrown, or fields of a type that the handler does not expect.
pub data Parsed : Type 0 where
  payment : PaymentRequest → Parsed
  thrown : Parsed
  ill_typed : Value → Parsed

-- `(v as string) ?? d`: the outer `none` is a value of another type.
abbrev text_or : Text → Option Value → Option Text
text_or d none = some d
text_or d (some null) = some d
text_or d (some (str s)) = some s
text_or d _ = none

abbrev text_only : Option Value → Option Text
text_only (some (str s)) = some s
text_only _ = none

abbrev optional_text : Option Value → Option (Option Text)
optional_text none = some none
optional_text (some (str s)) = some (some s)
optional_text _ = none

-- `BigInt(r.amount)`, which throws on a missing member.
abbrev amount_of : Json → Option Value → Option ℤ
amount_of json none = none
amount_of json (some v) = big_of json.int_of_other v

module _ (json : Json) (agent_id : Text) where
  -- The fields of `r` behind its amount.
  unfoldable pub payment_from : Value → ℤ → Parsed
  unfolding get_member
  payment_from r amount = elim (text_or [] (get_member (codes "intent") r)) [
    | none ↦ ill_typed r
    | some intent ↦ elim (text_only (get_member (codes "token") r)) [
      | none ↦ ill_typed r
      | some token ↦ elim (text_only (get_member (codes "recipient") r)) [
        | none ↦ ill_typed r
        | some recipient ↦ elim (text_or (codes "eip155:84532") (get_member (codes "chain") r)) [
          | none ↦ ill_typed r
          | some chain ↦ elim (text_or agent_id (get_member (codes "agentId") r)) [
            | none ↦ ill_typed r
            | some agent ↦ elim (optional_text (get_member (codes "resourceUrl") r)) [
              | none ↦ ill_typed r
              | some url ↦ payment (record {
                intent = intent;
                amount = amount;
                token = token;
                recipient = recipient;
                chain = chain;
                agent_id = agent;
                resource_url = url;
              })
            ]
          ]
        ]
      ]
    ]
  ]

  unfoldable pub payment_of : Value → Parsed
  unfolding payment_from big_of
  payment_of r = elim (amount_of json (get_member (codes "amount") r)) [
    | none ↦ thrown
    | some amount ↦ payment_from r amount
  ]

  -- `body.request ?? body`, where reading a member of null throws.
  unfoldable pub read_request : Value → Parsed
  unfolding payment_of get_member
  read_request null = thrown
  read_request body = elim (get_member (codes "request") body) [
    | none ↦ payment_of body
    | some null ↦ payment_of body
    | some r ↦ payment_of r
  ]

  -- `readJson` and what the handler makes of it.
  unfoldable pub parse_body : Option Text → Parsed
  unfolding read_request trim
  parse_body none = thrown
  parse_body (some raw) =
      if is_empty (trim raw)
      then read_request (obj no_fields)
      else elim (json.parse (trim raw)) [ none ↦ thrown | some body ↦ read_request body ]

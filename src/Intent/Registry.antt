-- ===== src/Intent/Registry.antt =====
-- ResourceRegistry of packages/core/src/intent/registry.ts: which addresses a resource's host has
-- been paid at. The platform's URL parser is the parameter `parse_url`.
pub mod Binding
use agentct.Base.{
  Text, codes, lower, is_empty, includes, set_add, lookup, insert, take, or_else, Bool, true, false,
  Option, none, some, List, [], ◌∷◌, map, if◌then◌else◌,
}
use agentct.Types.{PaymentRequest, PolicyCheck, Severity, Message, AuditEntry}
use agentct.Policy.Allowlist.{Url}

-- The private field `bindings`.
abbrev pub Bindings : Type 0
Bindings = List (Text × List Text)

abbrev filled : Text → Option Text
filled [] = none
filled (c ∷ s) = some (c ∷ s)

-- The host of what `new URL` returned.
abbrev url_host : Option Url → Option Text
url_host none = none
url_host (some url) = filled (lower url.host)

abbrev short : Text → Text
short a = take 10 a

abbrev info : Text → Message → PolicyCheck
info id message = record { id = id; passed = true; severity = Severity.info; message = message }

abbrev pub binding_id : Text
binding_id = codes "intent-resource-binding"

-- The check against the addresses that a host is bound to.
unfoldable pub compare_payee : Text → Option (List Text) → Text → PolicyCheck
unfolding includes lower
compare_payee host none recipient = record {
  id = binding_id;
  passed = true;
  severity = Severity.warning;
  message = Message.first_for_resource host (short recipient);
}
compare_payee host (some []) recipient = record {
  id = binding_id;
  passed = true;
  severity = Severity.warning;
  message = Message.first_for_resource host (short recipient);
}
compare_payee host (some (k ∷ known)) recipient =
    if includes (k ∷ known) (lower recipient)
    then info binding_id (Message.paid_before host (short recipient))
    else record {
      id = binding_id;
      passed = false;
      severity = Severity.critical;
      message = Message.payee_changed host (map short (k ∷ known)) (short recipient);
    }

-- What `bind` does once it has the host.
unfoldable pub bind_host : Option Text → Text → Bindings → Bindings
unfolding lookup insert set_add lower
bind_host none recipient bindings = bindings
bind_host (some host) recipient bindings =
    insert host (set_add (lower recipient) (or_else (lookup host bindings) [])) bindings

-- What `check` does once it has the host.
unfoldable pub check_host : Option Text → Bindings → Text → PolicyCheck
unfolding lookup compare_payee
check_host none bindings recipient = info binding_id Message.no_resource
check_host (some host) bindings recipient = compare_payee host (lookup host bindings) recipient

module _ (parse_url : Text → Option Url) where
  -- `hostOf`: `none` for a missing or blank URL, one that does not parse, or one with no host.
  unfoldable pub host_of : Option Text → Option Text
  unfolding lower
  host_of none = none
  host_of (some []) = none
  host_of (some (c ∷ s)) = url_host (parse_url (c ∷ s))

  unfoldable pub bind : Option Text → Text → Bindings → Bindings
  unfolding host_of bind_host
  bind resource_url recipient bindings = bind_host (host_of resource_url) recipient bindings

  unfoldable pub known : Option Text → Bindings → List Text
  unfolding host_of lookup
  known resource_url bindings = elim (host_of resource_url) [
    | none ↦ []
    | some host ↦ or_else (lookup host bindings) []
  ]

  unfoldable pub hydrate : List AuditEntry → Bindings → Bindings
  unfolding bind
  hydrate [] bindings = bindings
  hydrate (e ∷ es) bindings = hydrate es (bind e.request.resource_url e.request.recipient bindings)

  unfoldable pub check : Bindings → PaymentRequest → PolicyCheck
  unfolding host_of check_host
  check bindings req = check_host (host_of req.resource_url) bindings req.recipient

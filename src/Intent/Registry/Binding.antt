-- ===== src/Intent/Registry/Binding.antt =====
-- The registry against the history of payments: when a payee counts as substituted.
use agentct.Base.{
  Text, text_eq, text_eq_iff, lower, includes, set_add, includes-set_add, lookup, lookup-insert,
  or_else, Bool, true, false, not, ◌&&◌, ◌||◌, Option, none, some, List, [], ◌∷◌, any, ◌≡◌, refl,
  ◌↔◌, arith,
}
use mathlib.Core.Bool.{true≢false}
use agentct.Types.{PaymentRequest, AuditEntry}
use agentct.Policy.Allowlist.{Url}
use agentct.Intent.Registry.{
  Bindings, host_of, bind_host, bind, hydrate, compare_payee, check_host, check,
}

-- What the bindings say of a host.
abbrev pub payees : Text → Bindings → List Text
payees host bindings = or_else (lookup host bindings) []

abbrev pub host_eq : Option Text → Text → Bool
host_eq none host = false
host_eq (some h) host = text_eq h host

abbrev is_known : List Text → Bool
is_known [] = false
is_known (_ ∷ _) = true

is_known-set_add : (t : Text) (ss : List Text) → is_known (set_add t ss) ≡ true
unfolding set_add includes
is_known-set_add t [] = refl
is_known-set_add t (s ∷ ss) = ground arith

-- A payment for this host.
abbrev pub is_for : (Text → Option Url) → Text → AuditEntry → Bool
is_for parse_url host e = host_eq (host_of parse_url e.request.resource_url) host

bind_host-payees :
    (found : Option Text) (recipient host addr : Text) (b : Bindings)
    → includes (payees host (bind_host found recipient b)) addr
      ≡ (includes (payees host b) addr || (host_eq found host && text_eq (lower recipient) addr))
unfolding bind_host
bind_host-payees none recipient host addr b = ground arith
bind_host-payees (some h) recipient host addr b = ground (
  arith,
  lookup-insert h host (set_add (lower recipient) (payees h b)) b,
  includes-set_add (lower recipient) addr (payees h b),
  text_eq_iff h host,
)

module _ (parse_url : Text → Option Url) where
  -- What the history says: a payment for the host, to the address.
  abbrev pub paid : Text → Text → List AuditEntry → Bool
  paid host addr = any (λ e. is_for parse_url host e && text_eq (lower e.request.recipient) addr)

  hydrate-payees :
      (es : List AuditEntry) (host addr : Text) (b : Bindings)
      → includes (payees host (hydrate parse_url es b)) addr
        ≡ (includes (payees host b) addr || paid host addr es)
  unfolding hydrate bind
  hydrate-payees [] host addr b = ground arith
  hydrate-payees (e ∷ es) host addr b = ground (
    arith,
    hydrate-payees es host addr (bind parse_url e.request.resource_url e.request.recipient b),
    bind_host-payees (host_of parse_url e.request.resource_url) e.request.recipient host addr b,
  )

  bind_host-known :
      (found : Option Text) (recipient host : Text) (b : Bindings)
      → is_known (payees host (bind_host found recipient b))
        ≡ (is_known (payees host b) || host_eq found host)
  unfolding bind_host
  bind_host-known none recipient host b = ground arith
  bind_host-known (some h) recipient host b = ground (
    arith,
    lookup-insert h host (set_add (lower recipient) (payees h b)) b,
    is_known-set_add (lower recipient) (payees h b),
    text_eq_iff h host,
  )

  hydrate-known :
      (es : List AuditEntry) (host : Text) (b : Bindings)
      → is_known (payees host (hydrate parse_url es b))
        ≡ (is_known (payees host b) || any (is_for parse_url host) es)
  unfolding hydrate bind
  hydrate-known [] host b = ground arith
  hydrate-known (e ∷ es) host b = ground (
    arith,
    hydrate-known es host (bind parse_url e.request.resource_url e.request.recipient b),
    bind_host-known (host_of parse_url e.request.resource_url) e.request.recipient host b,
  )

  compare_payee-passed :
      (host : Text) (bound : Option (List Text)) (recipient : Text)
      → (compare_payee host bound recipient).passed
        ≡ not (is_known (or_else bound []) && not (includes (or_else bound []) (lower recipient)))
  unfolding compare_payee
  compare_payee-passed host none recipient = refl
  compare_payee-passed host (some []) recipient = refl
  compare_payee-passed host (some (k ∷ ks)) recipient = ground arith

  check_host-passed :
      (found : Option Text) (es : List AuditEntry) (recipient : Text)
      → ((check_host found (hydrate parse_url es []) recipient).passed ≡ false) ↔ (
          (host : Text) × (found ≡ some host)
          × (any (is_for parse_url host) es ≡ true)
          × (paid host (lower recipient) es ≡ false))
  unfolding check_host
  check_host-passed none es recipient = (λ h. absurd (true≢false h), λ m. cc (m.1))
  check_host-passed (some h) es recipient =
      let b = hydrate parse_url es [] in
      let outcome = compare_payee-passed h (lookup h b) recipient in
      let seen = hydrate-known es h [] in
      let to = hydrate-payees es h (lower recipient) [] in
      (
        λ failed. (h, refl, ground arith, ground arith),
        λ m.
            let same : m.0 ≡ h = cc (m.1) in
            let for = rw same at m.2 in let never = rw same at m.3 in ground arith,
      )

  -- A registry seeded from a history of payments fails a request exactly when its URL has a host
  -- that the history paid before, and never at the request's recipient.
  pub check-passed :
      (es : List AuditEntry) (req : PaymentRequest)
      → ((check parse_url (hydrate parse_url es []) req).passed ≡ false) ↔ (
          (host : Text) × (host_of parse_url req.resource_url ≡ some host)
          × (any (is_for parse_url host) es ≡ true)
          × (paid host (lower req.recipient) es ≡ false))
  unfolding check
  check-passed es req = check_host-passed (host_of parse_url req.resource_url) es req.recipient

-- ===== src/Tests/Layers.antt =====
-- The check of a payee, and the row's hash, on concrete data.
use agentct.Base.{
  pos, Text, codes, text_eq, starts_with, lower, any, true, false, some, List, [], ◌∷◌, ◌++◌, ◌≡◌,
  refl, ◌↔◌,
}
use agentct.Types.{AuditEntry}
use agentct.Intent.Registry
use agentct.Intent.Registry.{host_of}
use agentct.Intent.Registry.Binding.{is_for, paid, check-passed}
use agentct.Audit.Hash.{Canonical}
use agentct.Tests.Samples.{alice, bob, payment, parse_https, allowing, entry}

abbrev history : List AuditEntry
history = entry 1000 (payment (pos 60) alice) allowing ∷ []

-- The shop was paid at alice's address, so bob's is a substitution.
substituted_test :
    (Registry.check parse_https
      (Registry.hydrate parse_https history [])
      (payment (pos 60) bob)).passed
    ≡ false
unfolding Registry.check Registry.hydrate starts_with text_eq
substituted_test = refl

check-passed_example :
    let req = payment (pos 60) bob in
    ((Registry.check parse_https (Registry.hydrate parse_https history []) req).passed ≡ false) ↔ (
      (host : Text) × (host_of parse_https req.resource_url ≡ some host)
      × (any (is_for parse_https host) history ≡ true)
      × (paid parse_https host (lower req.recipient) history ≡ false))
check-passed_example = check-passed parse_https history (payment (pos 60) bob)

abbrev by_intent : Canonical → Text
by_intent c = c.intent ++ c.recipient

-- The same row twice, its recipient in other letters.
abbrev row : AuditEntry
row = entry 1000 (payment (pos 60) alice) allowing

abbrev row_in_capitals : AuditEntry
row_in_capitals =
    entry 1000 (payment (pos 60) (codes "0X00000000000000000000000000000000000000A1")) allowing

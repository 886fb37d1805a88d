-- ===== src/Policy/Rules/Listing.antt =====
-- Who is on an allowlist: the code's normalised search against a description over the entries as
-- they are written in the policy.
use agentct.Base.{
  includes-any, Text, text_eq, text_eq_iff, lower, trim, includes, filter, is_empty, any, any_iff,
  or_else, Any, Bool, true, false, not, ◌&&◌, Option, none, some, List, [], ◌∷◌, map, ◌≡◌, refl,
  ◌≢◌, ◌↔◌, inl, inr, arith, sym, ap, ◌∙◌, Option-cases,
}
use agentct.Types.{PaymentRequest, AllowlistMode, AllowlistRule}
use mathlib.Core.Bool.{false≢true}
use agentct.Policy.Allowlist.{entry_host, Url, resource_matches, matches_resource}
use agentct.Policy.Allowlist.Matching.{entry_host-nil, Matches, resource_matches_iff}
use agentct.Policy.Rules.{RuleContext, check_allowlist, normal_entries, is_listed, allow_target}
use agentct.Policy.Rules.Outcomes.{blocks, passes}

-- An entry as the rule reads it.
abbrev pub normal : Text → Text
normal e = lower (trim e)

-- What lets a request through: an entry that is not blank and is the recipient's address, or one
-- whose host and path cover the request's URL.
abbrev pub Listed : (Text → Option Url) → AllowlistMode → PaymentRequest → List Text → Type 0
Listed parse_url AllowlistMode.recipients req entries =
    Any (λ e. (normal e ≢ []) × (normal e ≡ lower req.recipient)) entries
Listed parse_url AllowlistMode.resources req entries =
    (target : Text) × (url : Url) × (req.resource_url ≡ some target)
    × (target ≢ [])
    × (parse_url target ≡ some url)
    × Any (λ e. Matches url (normal e)) entries

-- Searching the normalised entries is searching the entries by their normal form.
any-normal :
    (p : Text → Bool) (entries : List Text)
    → any p (filter (λ e. not (is_empty e)) (map normal entries))
      ≡ any (λ e. not (is_empty (normal e)) && p (normal e)) entries
any-normal p [] = refl
any-normal p (e ∷ es) = ground (arith, any-normal p es)

kept_iff :
    (e : Text) (p : Bool) {P : Type 0}
    → (p ≡ true) ↔ P
    → ((not (is_empty e) && p) ≡ true) ↔ ((e ≢ []) × P)
kept_iff [] p h = (λ q. absurd (false≢true q), λ q. absurd (q.0 refl))
kept_iff (c ∷ e) p h = (λ q. (λ r. cc, h.0 q), λ q. h.1 q.1)

-- The recipients' side: some entry is the recipient's address, up to case and outer white space.
recipients_iff :
    (rule : AllowlistRule) (target : Text)
    → (includes (normal_entries rule) target ≡ true)
      ↔ Any (λ e. (normal e ≢ []) × (normal e ≡ target)) rule.entries
unfolding normal_entries
recipients_iff rule target =
    let found =
      any_iff (λ e. (normal e ≢ []) × (normal e ≡ target))
        (λ e. not (is_empty (normal e)) && text_eq (normal e) target) rule.entries
        (λ e. kept_iff (normal e) (text_eq (normal e) target) (text_eq_iff (normal e) target)) in
    let same =
      includes-any target (normal_entries rule) ∙ any-normal (λ s. text_eq s target) rule.entries in
    (λ h. found.0 (sym same ∙ h), λ a. same ∙ found.1 a)

resource_kept_iff :
    (url : Url) (e : Text)
    → ((not (is_empty (normal e)) && resource_matches url (normal e)) ≡ true)
      ↔ Matches url (normal e)
resource_kept_iff url e =
    let kept =
      kept_iff (normal e) (resource_matches url (normal e)) (resource_matches_iff url (normal e)) in
    (λ h. (kept.0 h).1, λ m. kept.1 (λ r. m.has_host (blank r), m))
  where
    blank : normal e ≡ [] → entry_host (normal e) ≡ []
    blank r = ap entry_host r ∙ entry_host-nil

covers_iff :
    (rule : AllowlistRule) (url : Url)
    → (any (resource_matches url) (normal_entries rule) ≡ true)
      ↔ Any (λ e. Matches url (normal e)) rule.entries
unfolding normal_entries
covers_iff rule url =
    let found =
      any_iff (λ e. Matches url (normal e))
        (λ e. not (is_empty (normal e)) && resource_matches url (normal e)) rule.entries
        (resource_kept_iff url) in
    let same = any-normal (resource_matches url) rule.entries in
    (λ h. found.0 (sym same ∙ h), λ a. same ∙ found.1 a)

-- A URL is let through exactly when it is not blank, it parses, and an entry covers it.
matches_resource_iff :
    (parse_url : Text → Option Url) (target : Text) (entries : List Text)
    → (matches_resource parse_url target entries ≡ true) ↔ (
        (url : Url) × (target ≢ [])
        × (parse_url target ≡ some url)
        × (any (resource_matches url) entries ≡ true))
unfolding matches_resource
matches_resource_iff parse_url [] entries = (λ h. absurd (false≢true h), λ m. absurd (m.1 refl))
matches_resource_iff parse_url (c ∷ s) [] =
    (λ h. absurd (false≢true h), λ m. absurd (false≢true m.3))
matches_resource_iff parse_url (c ∷ s) (e ∷ es) = elim (Option-cases (parse_url (c ∷ s))) [
  | inl none_parsed ↦ (λ h. absurd (false≢true (rw none_parsed at h)), λ m. cc (m.2))
  | inr f ↦ (λ h. (f.0, (λ r. cc), f.1, rw f.1 at h), λ m. rw m.2 m.3)
]

url_target_iff :
    (parse_url : Text → Option Url) (resource : Option Text) (rule : AllowlistRule)
    → (matches_resource parse_url (or_else resource []) (normal_entries rule) ≡ true) ↔ (
        (target : Text) × (url : Url) × (resource ≡ some target)
        × (target ≢ [])
        × (parse_url target ≡ some url)
        × Any (λ e. Matches url (normal e)) rule.entries)
url_target_iff parse_url none rule =
    let found = matches_resource_iff parse_url [] (normal_entries rule) in
    (λ h. absurd ((found.0 h).1 refl), λ m. cc (m.2))
url_target_iff parse_url (some t) rule =
    let found = matches_resource_iff parse_url t (normal_entries rule) in
    (
      λ h.
          let (url, filled, parsed, covered) = found.0 h in
          (t, url, refl, filled, parsed, (covers_iff rule url).0 covered),
      λ m.
          let e : m.0 ≡ t = cc (m.2) in
          found.1 (m.1, λ r. m.3 (e ∙ r), rw (← e) m.4, (covers_iff rule m.1).1 m.5),
    )

is_listed_iff :
    (parse_url : Text → Option Url) (mode : AllowlistMode) (rule : AllowlistRule)
    (req : PaymentRequest)
    → (is_listed parse_url mode (allow_target mode req) (normal_entries rule) ≡ true)
      ↔ Listed parse_url mode req rule.entries
is_listed_iff parse_url AllowlistMode.recipients rule req =
    recipients_iff rule (lower req.recipient)
is_listed_iff parse_url AllowlistMode.resources rule req =
    url_target_iff parse_url req.resource_url rule

-- The allowlist rule passes exactly a request that is listed; one that is not is blocked when the
-- rule is enforced; it never asks for a human.
pub check_allowlist_outcomes :
    (parse_url : Text → Option Url) (rule : AllowlistRule) (ctx : RuleContext)
    → ((passes (check_allowlist parse_url rule ctx) ≡ true)
        ↔ Listed parse_url rule.mode ctx.req rule.entries)
      × ((blocks (check_allowlist parse_url rule ctx) ≡ true)
          ↔ ((rule.enforce ≡ true) × ¬ (Listed parse_url rule.mode ctx.req rule.entries)))
      × ((check_allowlist parse_url rule ctx).escalate ≡ false)
unfolding check_allowlist
check_allowlist_outcomes parse_url rule ctx =
    let listed = is_listed_iff parse_url rule.mode rule ctx.req in
    (
      (λ h. listed.0 (ground arith), λ m. rw (listed.1 m)),
      (
        λ h. (ground arith, λ m. cc (rw (listed.1 m) at h)),
        λ m.
            let unlisted : is_listed parse_url rule.mode (allow_target rule.mode ctx.req)
                  (normal_entries rule)
                ≢ true =
              λ h. m.1 (listed.0 h) in
            ground arith,
      ),
      ground arith,
    )

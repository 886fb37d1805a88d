-- ===== src/Policy/Allowlist.antt =====
-- The allowlist rule of packages/core/src/policy/rules.ts: host-based matching of resource URLs.
-- The platform's URL parser is the parameter `parse_url`; `none` is the exception it throws.
pub mod Matching
use agentct.Base.{
  ℕ, Text, ◌==◌, not, text_eq, ends_with, starts_with, lower, index_of, is_empty, take, drop, any,
  Bool, false, true, ◌||◌, Option, none, some, List, [], ◌∷◌, ◌++◌, if◌then◌else◌,
}
use mathlib.Core.List.{reverse}

-- The two parts of a parsed URL that the source reads.
pub record Url : Type 0 where
  pub host : Text
  pub pathname : Text

drop_slashes : Text → Text
drop_slashes [] = []
drop_slashes (c ∷ s) = if c == b'/' then drop_slashes s else c ∷ s

-- `s.replace(/\/+$/, "")`
pub strip_slashes : Text → Text
unfolding drop_slashes
strip_slashes s = reverse (drop_slashes (reverse s))

-- `slash === -1 ? entry : entry.slice(0, slash)`, and what stands from the slash on.
before : Option ℕ → Text → Text
before none entry = entry
before (some i) entry = take i entry

onward : Option ℕ → Text → Text
onward none entry = []
onward (some i) entry = drop i entry

pub entry_host : Text → Text
unfolding before index_of
entry_host entry = before (index_of b'/' entry) entry

pub entry_path : Text → Text
unfolding onward index_of
entry_path entry = onward (index_of b'/' entry) entry

pub host_ok : Text → Text → Bool
unfolding text_eq ends_with
host_ok host entry = text_eq host entry || ends_with host (b'.' ∷ entry)

pub path_ok : Text → Text → Bool
unfolding text_eq starts_with
path_ok path prefix = text_eq path prefix || starts_with path (prefix ++ b'/' ∷ [])

unfoldable pub resource_matches : Url → Text → Bool
unfolding entry_host entry_path host_ok path_ok strip_slashes lower
resource_matches url entry =
    if is_empty (entry_host entry)
    then false
    else if not (host_ok (lower url.host) (entry_host entry))
    then false
    else if is_empty (entry_path entry)
    then true
    else path_ok (lower url.pathname) (strip_slashes (entry_path entry))

abbrev pub no_entries : List Text → Bool
no_entries [] = true
no_entries (_ ∷ _) = false

-- `matchesResource`: no URL, no entry or no parse means no match.
unfoldable pub matches_resource : (Text → Option Url) → Text → List Text → Bool
unfolding resource_matches
matches_resource parse_url target entries =
    if is_empty target || no_entries entries
    then false
    else elim (parse_url target) [ none ↦ false | some url ↦ any (resource_matches url) entries ]

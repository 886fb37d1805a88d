-- ===== src/Policy/Allowlist/Matching.antt =====
-- What an allowlist entry matches: a host and its subdomains, and whole path segments.
use agentct.Base.{
  ℕ, suc, Text, text_eq_iff, ends_with_sound, ends_with-append, starts_with-append,
  starts_with-rest, lower, index_of, is_empty, take, drop, length, Bool, false, true, ◌||◌, not,
  Option, none, some, [], ◌∷◌, ◌++◌, if◌then◌else◌, ◌≡◌, refl, ◌≢◌, ◌↔◌, ◌⊎◌, inl, inr, arith, All,
  append_assoc, append-nil, sym, ◌∙◌, take-append-drop, zero,
}
use agentct.Policy.Allowlist.{
  Url, before, onward, entry_host, entry_path, host_ok, path_ok, strip_slashes, resource_matches,
}

-- The host itself, or a subdomain of it.
abbrev pub HostMatches : Text → Text → Type 0
HostMatches host entry = (host ≡ entry) ⊎ ((sub : Text) × (host ≡ sub ++ b'.' ∷ entry))

-- The path itself, or one below it.
abbrev pub PathMatches : Text → Text → Type 0
PathMatches path prefix = (path ≡ prefix) ⊎ ((rest : Text) × (path ≡ prefix ++ b'/' ∷ rest))

or_iff : (a b : Bool) → ((a || b) ≡ true) ↔ ((a ≡ true) ⊎ (b ≡ true))
or_iff a b = ground arith

pub host_ok_iff : (host entry : Text) → (host_ok host entry ≡ true) ↔ HostMatches host entry
unfolding host_ok
host_ok_iff host entry = (
  λ h. elim ((or_iff _ _).0 h) [
    | inl e ↦ inl ((text_eq_iff host entry).0 e)
    | inr e ↦ inr (ends_with_sound host (b'.' ∷ entry) e)
  ],
  λ h. (or_iff _ _).1 (elim h [
    | inl e ↦ inl ((text_eq_iff host entry).1 e)
    | inr m ↦ inr (rw m.1 (ends_with-append m.0 (b'.' ∷ entry)))
  ]),
)

pub path_ok_iff : (path prefix : Text) → (path_ok path prefix ≡ true) ↔ PathMatches path prefix
unfolding path_ok
path_ok_iff path prefix = (
  λ h. elim ((or_iff _ _).0 h) [
    | inl e ↦ inl ((text_eq_iff path prefix).0 e)
    | inr e ↦
        let below = starts_with-rest path (prefix ++ b'/' ∷ []) e in
        inr (
          drop (length (prefix ++ b'/' ∷ [])) path,
          below ∙ append_assoc prefix (b'/' ∷ []) (drop (length (prefix ++ b'/' ∷ [])) path),
        )
  ],
  λ h. (or_iff _ _).1 (elim h [
    | inl e ↦ inl ((text_eq_iff path prefix).1 e)
    | inr m ↦ inr (
        rw (m.1 ∙ sym (append_assoc prefix (b'/' ∷ []) m.0))
          (starts_with-append (prefix ++ b'/' ∷ []) m.0))
  ]),
)

take-index_of : (c : ℕ) (s : Text) (i : ℕ) → index_of c s ≡ some i → All (λ d. d ≢ c) (take i s)
unfolding index_of
take-index_of c [] i h = cc
take-index_of c (d ∷ s) zero h = tt
take-index_of c (d ∷ s) (suc i) h = ground (arith, take-index_of c s i)

index_of-none : (c : ℕ) (s : Text) → index_of c s ≡ none → All (λ d. d ≢ c) s
unfolding index_of
index_of-none c [] h = tt
index_of-none c (d ∷ s) h = ground (arith, index_of-none c s)

parts_at :
    (slash : Option ℕ) (entry : Text)
    → index_of b'/' entry ≡ slash
    → (before slash entry ++ onward slash entry ≡ entry) × All (λ c. c ≢ b'/') (before slash entry)
unfolding before onward
parts_at none entry e = (append-nil entry, index_of-none b'/' entry e)
parts_at (some i) entry e = (take-append-drop i entry, take-index_of b'/' entry i e)

-- An entry is its host, which holds no slash, followed by its path.
pub entry_parts :
    (entry : Text)
    → (entry_host entry ++ entry_path entry ≡ entry) × All (λ c. c ≢ b'/') (entry_host entry)
unfolding entry_host entry_path
entry_parts entry = parts_at (index_of b'/' entry) entry refl

pub entry_host-nil : entry_host [] ≡ []
unfolding entry_host
entry_host-nil = refl

-- When an entry lets a URL through.
pub record Matches (url : Url) (entry : Text) : Type 0 where
  pub has_host : entry_host entry ≢ []
  pub host : HostMatches (lower url.host) (entry_host entry)
  pub path :
      (entry_path entry ≡ []) ⊎ PathMatches (lower url.pathname) (strip_slashes (entry_path entry))

is_empty_iff : (s : Text) → (is_empty s ≡ true) ↔ (s ≡ [])
is_empty_iff [] = ground arith
is_empty_iff (c ∷ s) = ground arith

ladder_iff :
    (no_host host no_path path : Bool)
    → ((if no_host then false else if not host then false else if no_path then true else path)
        ≡ true)
      ↔ ((no_host ≢ true) × (host ≡ true) × ((no_path ≡ true) ⊎ (path ≡ true)))
ladder_iff no_host host no_path path = ground arith

-- The code matches a URL with an allowlist entry exactly when the entry names a host, the URL's
-- host is that host or a subdomain of it, and the URL's path is at or below the entry's path.
pub resource_matches_iff :
    (url : Url) (entry : Text) → (resource_matches url entry ≡ true) ↔ Matches url entry
unfolding resource_matches
resource_matches_iff url entry =
    let hosts = host_ok_iff (lower url.host) (entry_host entry) in
    let paths = path_ok_iff (lower url.pathname) (strip_slashes (entry_path entry)) in
    let no_host = is_empty_iff (entry_host entry) in
    let no_path = is_empty_iff (entry_path entry) in
    let ladder =
      ladder_iff (is_empty (entry_host entry)) (host_ok (lower url.host) (entry_host entry))
        (is_empty (entry_path entry))
        (path_ok (lower url.pathname) (strip_slashes (entry_path entry))) in
    (
      λ h. record {
        has_host = λ e. (ladder.0 h).0 (no_host.1 e);
        host = hosts.0 (ladder.0 h).1;
        path = elim (ladder.0 h).2 [ inl e ↦ inl (no_path.0 e) | inr e ↦ inr (paths.0 e) ];
      },
      λ m. ladder.1 (
        λ e. m.has_host (no_host.0 e),
        hosts.1 m.host,
        elim m.path [ inl e ↦ inl (no_path.1 e) | inr e ↦ inr (paths.1 e) ],
      ),
    )

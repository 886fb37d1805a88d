-- ===== src/Server/Limiter.antt =====
-- RateLimiter of packages/server/src/index.ts: requests of a key counted in fixed windows. The clock is
-- in milliseconds.
pub mod Bounds
use agentct.Base.{
  ℕ, ◌+◌, leb, Text, lookup, insert, Bool, true, false, Option, none, some, List, [], ◌∷◌,
  if◌then◌else◌,
}

pub record RateLimitOptions : Type 0 where
  pub window_ms : ℕ
  pub max : ℕ

pub record Hit : Type 0 where
  pub count : ℕ
  pub reset_at : ℕ

abbrev pub Hits : Type 0
Hits = List (Text × Hit)

-- The entry of a key, as it is found, and what `allow` makes of it: the answer and the new entry.
unfoldable pub allow_entry : RateLimitOptions → ℕ → Option Hit → Bool × Hit
allow_entry opts now none = (true, record { count = 1; reset_at = now + opts.window_ms })
allow_entry opts now (some hit) =
    if leb hit.reset_at now
    then (true, record { count = 1; reset_at = now + opts.window_ms })
    else if leb opts.max hit.count
    then (false, hit)
    else (true, record hit { count = hit.count + 1 })

-- The entry is replaced also where it stays as it is, which changes nothing.
unfoldable pub allow : RateLimitOptions → Text → ℕ → Hits → Bool × Hits
unfolding allow_entry
allow opts key now hits =
    let (ok, hit) = allow_entry opts now (lookup key hits) in (ok, insert key hit hits)

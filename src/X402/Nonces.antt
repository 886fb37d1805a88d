-- ===== src/X402/Nonces.antt =====
-- InFlightNonceTracker of packages/core/src/x402/eip3009.ts: the nonces that were issued and have not
-- settled. The set holds them in lower case. What `randomNonce` returns is a list of draws, taken
-- from the front.
pub mod Termination
pub mod Outstanding
use agentct.Base.{
  Text, lower, includes, text_eq, filter, Bool, true, false, not, Option, none, some, List, [], ◌∷◌,
  ◌++◌, if◌then◌else◌,
}

abbrev pub Tracker : Type 0
Tracker = List Text

unfoldable pub has : Text → Tracker → Bool
has nonce inflight = includes inflight (lower nonce)

-- `inflight.add(nonce.toLowerCase())`
unfoldable pub add : Text → Tracker → Tracker
add nonce inflight = if has nonce inflight then inflight else inflight ++ lower nonce ∷ []

-- The loop of `reserve` from its nonce `n` on: `none` when it draws more often than `draws` holds.
unfoldable pub draw_fresh : Tracker → Text → List Text → Option (Text × List Text)
draw_fresh inflight n [] = if has n inflight then none else some (n, [])
draw_fresh inflight n (d ∷ draws) = elim (has n inflight) [
  | true ↦ draw_fresh inflight d draws
  | false ↦ some (n, d ∷ draws)
]

-- `nonce ?? randomNonce()` and the loop.
unfoldable pub fresh_nonce : Option Text → List Text → Tracker → Option (Text × List Text)
unfolding draw_fresh
fresh_nonce (some nonce) draws inflight = draw_fresh inflight nonce draws
fresh_nonce none [] inflight = none
fresh_nonce none (d ∷ draws) inflight = draw_fresh inflight d draws

abbrev pub reserved : Option (Text × List Text) → Tracker → Option (Text × Tracker)
reserved none inflight = none
reserved (some (n, _)) inflight = some (n, add n inflight)

-- The nonce that `reserve` returns, and the tracker behind it.
unfoldable pub reserve : Option Text → List Text → Tracker → Option (Text × Tracker)
unfolding fresh_nonce add
reserve nonce draws inflight = reserved (fresh_nonce nonce draws inflight) inflight

unfoldable pub release : Text → Tracker → Tracker
release nonce inflight = filter (λ n. not (text_eq n (lower nonce))) inflight

-- ===== src/Base/Maps.antt =====
-- A JavaScript `Map` with string keys, in insertion order.
use mathlib.Core.Path.{◌≡◌, refl}
use mathlib.Core.Option.{Option, none, some}
use mathlib.Core.List.{List, [], ◌∷◌}
use native.Mathlib.Omega.{arith}
use agentct.Base.Bools.{if◌then◌else◌}
use agentct.Base.Texts.{Text, text_eq, text_eq_iff}

module _ {ℓ} {V : Type ℓ} where
  -- `map.get(k)`
  unfoldable pub lookup : Text → List (Text × V) → Option V
  lookup k [] = none
  lookup k ((j, v) ∷ m) = if text_eq j k then some v else lookup k m

  -- `map.set(k, v)`
  unfoldable pub insert : Text → V → List (Text × V) → List (Text × V)
  insert k v [] = (k, v) ∷ []
  insert k v ((j, w) ∷ m) = if text_eq j k then (j, v) ∷ m else (j, w) ∷ insert k v m

  pub lookup-insert :
      (k j : Text) (v : V) (m : List (Text × V))
      → lookup j (insert k v m) ≡ (if text_eq k j then some v else lookup j m)
  unfolding lookup insert
  lookup-insert k j v [] = refl
  lookup-insert k j v ((i, w) ∷ m) =
      ground (arith, text_eq_iff k j, text_eq_iff i k, text_eq_iff i j, lookup-insert k j v m)

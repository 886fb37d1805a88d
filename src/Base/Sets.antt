-- ===== src/Base/Sets.antt =====
-- A JavaScript `Set` of strings, in insertion order.
use mathlib.Core.Path.{◌≡◌, refl}
use mathlib.Core.Bool.{true, ◌||◌, ◌&&◌}
use mathlib.Core.List.{List, [], ◌∷◌, ◌++◌}
use native.Mathlib.Omega.{arith}
use agentct.Base.Bools.{if◌then◌else◌}
use agentct.Base.Lists.{filter}
use agentct.Base.Texts.{Text, text_eq, text_eq_iff, includes, includes-append}
use mathlib.Core.Bool.{not}

-- `set.add(t)`
unfoldable pub set_add : Text → List Text → List Text
set_add t ss = if includes ss t then ss else ss ++ t ∷ []

-- `set.delete(t)`
unfoldable pub set_delete : Text → List Text → List Text
set_delete t ss = filter (λ s. not (text_eq s t)) ss

pub text_eq-subst : (s t u : Text) → text_eq s t ≡ true → text_eq s u ≡ text_eq t u
text_eq-subst s t u h = rw ((text_eq_iff s t).0 h)

includes-subst : (ss : List Text) (t u : Text) → text_eq t u ≡ true → includes ss t ≡ includes ss u
includes-subst ss t u h = rw ((text_eq_iff t u).0 h)

pub includes-set_add :
    (t u : Text) (ss : List Text) → includes (set_add t ss) u ≡ (includes ss u || text_eq t u)
unfolding set_add includes
includes-set_add t u ss = ground (arith, includes-append ss (t ∷ []) u, includes-subst ss t u)

pub includes-set_delete :
    (t u : Text) (ss : List Text)
    → includes (set_delete t ss) u ≡ (includes ss u && not (text_eq t u))
unfolding set_delete includes
includes-set_delete t u [] = refl
includes-set_delete t u (s ∷ ss) =
    ground (arith, text_eq_iff s t, text_eq_iff s u, text_eq_iff t u, includes-set_delete t u ss)

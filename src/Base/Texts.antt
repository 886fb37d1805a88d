-- ===== src/Base/Texts.antt =====
-- Texts as lists of code units, with the parts of JavaScript's String that the source uses. Lower
-- casing and trimming are those of ASCII, which is all that addresses, hosts and rule entries hold.
use Prim.Native.Nat.{ℕ, suc, ◌+◌}
use Prim.Native.Char.{code}
use Prim.Native.String.{String}
use mathlib.Core.Path.{◌≡◌, refl, ap}
use mathlib.Core.Logic.{◌↔◌, inl, inr}
use mathlib.Core.Bool.{Bool, true, false, ◌&&◌, ◌||◌}
use mathlib.Core.Option
use mathlib.Core.Option.{Option, none, some}
use mathlib.Core.List.{List, [], ◌∷◌, ◌++◌, reverse}
use native.Mathlib.Omega.{arith}
use agentct.Base.Bools.{leb, ◌==◌, if◌then◌else◌, Bool-cases}
use agentct.Base.Lists.{length, drop, any}

abbrev pub Text : Type 0
Text = List ℕ

-- The code units of a literal.
abbrev pub codes : String → Text
codes String.[] = []
codes (String.◌∷◌ c s) = code c ∷ codes s

-- `a === b`
unfoldable pub text_eq : Text → Text → Bool
text_eq [] [] = true
text_eq (a ∷ s) (b ∷ t) = (a == b) && text_eq s t
text_eq _ _ = false

pub text_eq_iff : (s t : Text) → (text_eq s t ≡ true) ↔ (s ≡ t)
unfolding text_eq
text_eq_iff [] [] = ground arith
text_eq_iff [] (b ∷ t) = ground arith
text_eq_iff (a ∷ s) [] = ground arith
text_eq_iff (a ∷ s) (b ∷ t) = ground (arith, text_eq_iff s t)

pub text_eq_refl : (s : Text) → text_eq s s ≡ true
text_eq_refl s = (text_eq_iff s s).1 refl

-- `s.startsWith(p)`
unfoldable pub starts_with : Text → Text → Bool
starts_with s [] = true
starts_with [] (b ∷ p) = false
starts_with (a ∷ s) (b ∷ p) = (a == b) && starts_with s p

pub starts_with-append : (p r : Text) → starts_with (p ++ r) p ≡ true
unfolding starts_with
starts_with-append [] r = refl
starts_with-append (a ∷ p) r = ground (arith, starts_with-append p r)

-- What a text that starts with `p` has behind it.
pub starts_with-rest : (s p : Text) → starts_with s p ≡ true → s ≡ p ++ drop (length p) s
unfolding starts_with
starts_with-rest s [] h = refl
starts_with-rest [] (b ∷ p) h = cc
starts_with-rest (a ∷ s) (b ∷ p) h = ground (arith, starts_with-rest s p)

pub starts_with_iff : (s p : Text) → (starts_with s p ≡ true) ↔ ((r : Text) × (s ≡ p ++ r))
starts_with_iff s p =
    (λ h. (drop (length p) s, starts_with-rest s p h), λ h. rw h.1 (starts_with-append p h.0))

-- `s.endsWith(p)`: a suffix of `s` equals `p`.
unfoldable pub ends_with : Text → Text → Bool
ends_with [] p = text_eq [] p
ends_with (a ∷ s) p = text_eq (a ∷ s) p || ends_with s p

pub ends_with_sound : (s p : Text) → ends_with s p ≡ true → (q : Text) × (s ≡ q ++ p)
unfolding ends_with
ends_with_sound [] p h = ([], (text_eq_iff [] p).0 h)
ends_with_sound (a ∷ s) p h = elim (Bool-cases (text_eq (a ∷ s) p)) [
  | inl e ↦ ([], (text_eq_iff (a ∷ s) p).0 e)
  | inr e ↦
      let found = ends_with_sound s p (rw e at h) in (a ∷ found.0, ap (λ (t : Text). a ∷ t) found.1)
]

pub ends_with-append : (q p : Text) → ends_with (q ++ p) p ≡ true
unfolding ends_with
ends_with-append [] [] = text_eq_refl []
ends_with-append [] (a ∷ p) = ground (arith, text_eq_refl (a ∷ p))
ends_with-append (a ∷ q) p = ground (arith, ends_with-append q p)

-- One code unit of `s.toLowerCase()`.
unfoldable pub lower_unit : ℕ → ℕ
lower_unit c = if leb 65 c && leb c 90 then c + 32 else c

lower_unit_idem : (c : ℕ) → lower_unit (lower_unit c) ≡ lower_unit c
unfolding lower_unit
lower_unit_idem c = ground arith

-- `s.toLowerCase()`
unfoldable pub lower : Text → Text
unfolding lower_unit
lower [] = []
lower (c ∷ s) = lower_unit c ∷ lower s

pub lower_idem : (s : Text) → lower (lower s) ≡ lower s
unfolding lower
lower_idem [] = refl
lower_idem (c ∷ s) = cc (lower_unit_idem c, lower_idem s)

-- White space and line terminators, as `trim` reads them.
unfoldable pub is_space : ℕ → Bool
is_space c =
    (leb 9 c && leb c 13)
    || (c == 32)
    || (c == 160)
    || (c == 5760)
    || (leb 8192 c && leb c 8202)
    || (c == 8232)
    || (c == 8233)
    || (c == 8239)
    || (c == 8287)
    || (c == 12288)
    || (c == 65279)

unfoldable pub trim_start : Text → Text
unfolding is_space
trim_start [] = []
trim_start (c ∷ s) = if is_space c then trim_start s else c ∷ s

-- `s.trim()`
unfoldable pub trim : Text → Text
unfolding trim_start
trim s = reverse (trim_start (reverse (trim_start s)))

-- `s.indexOf(c)` for one code unit, `none` where JavaScript returns -1.
unfoldable pub index_of : ℕ → Text → Option ℕ
index_of c [] = none
index_of c (d ∷ s) = if d == c then some 0 else Option.map suc (index_of c s)

abbrev pub is_empty : Text → Bool
is_empty [] = true
is_empty (_ ∷ _) = false

-- Membership of a text in a list, as `includes` and a `Set` of strings decide it.
unfoldable pub includes : List Text → Text → Bool
includes [] t = false
includes (s ∷ ss) t = text_eq s t || includes ss t

pub includes-append :
    (ss rs : List Text) (t : Text) → includes (ss ++ rs) t ≡ (includes ss t || includes rs t)
unfolding includes
includes-append [] rs t = refl
includes-append (s ∷ ss) rs t = ground (arith, includes-append ss rs t)

-- `includes` is a search with the equality of texts.
pub includes-any : (t : Text) (ss : List Text) → includes ss t ≡ any (λ s. text_eq s t) ss
unfolding includes
includes-any t [] = refl
includes-any t (s ∷ ss) = rw (includes-any t ss)

-- ===== src/Behavioral/Forest/Shape.antt =====
-- The shape of the trees: no deeper than allowed, and every sample row ends up in one leaf.
use agentct.Base.{
  ℕ, zero, suc, ◌+◌, ◌≤◌, max, leb, ◌==◌, length, filter, get_elem?, Bool, true, false, not, ◌||◌,
  Option, none, some, List, [], ◌∷◌, ◌≡◌, refl, arith, if◌then◌else◌,
}
use agentct.Base.Double.{Double}
use agentct.Behavioral.Numbers.{FloatOps}
use agentct.Behavioral.Baseline.{Vector}
use agentct.Behavioral.Forest.{
  Node, leaf, split, below, dims_of, ranges, random_index, random, grow, build_tree,
}

pub height : Node → ℕ
height (leaf size) = 0
height (split f v l r) = suc (max (height l) (height r))

-- The rows that the leaves stand for.
pub size_of : Node → ℕ
size_of (leaf size) = size
size_of (split f v l r) = size_of l + size_of r

length-partition :
    (p : Vector → Bool) (rows : List Vector)
    → length (filter p rows) + length (filter (λ row. not (p row)) rows) ≡ length rows
length-partition p [] = omega arith
length-partition p (row ∷ rows) = ground (arith, length-partition p rows)

-- What a builder of subtrees promises.
abbrev Builds : ℕ → (List Vector → ℕ → Node × ℕ) → Type 0
Builds levels build =
    (rows : List Vector) (s : ℕ)
    → (height (build rows s).0 ≤ levels) × (size_of (build rows s).0 ≡ length rows)

-- What holds of both branches holds of the choice.
of_either : (P : Node × ℕ → Type 0) (b : Bool) (t u : Node × ℕ) → P t → P u → P (if b then t else u)
of_either P true t u p q = p
of_either P false t u p q = q

module _ (F : FloatOps) where
  grow-Builds :
      (levels : ℕ) (build : List Vector → ℕ → Node × ℕ) (range : Option (ℕ × Double × Double))
      (x : Double)
      → Builds levels build
      → Builds (suc levels) (grow F build range x)
  unfolding grow height size_of
  grow-Builds levels build none x h rows s = (omega arith, refl)
  grow-Builds levels build (some (f, least, greatest)) x h rows s =
      let v = F.add least (F.mul x (F.sub greatest least)) in
      let left = filter (below f v) rows in
      let right = filter (λ row. not (below f v row)) rows in
      let (l, s') = build left s in
      (
        omega (arith, (h left s).0, (h right s').0),
        omega (arith, (h left s).1, (h right s').1, length-partition (below f v) rows),
      )

  -- A tree is never deeper than the levels that it is given, and its leaves account for every row
  -- of the sample exactly once.
  pub build_tree-Builds :
      (levels : ℕ) (rows : List Vector) (s : ℕ)
      → (height (build_tree F levels rows s).0 ≤ levels)
        × (size_of (build_tree F levels rows s).0 ≡ length rows)
  unfolding build_tree height size_of
  build_tree-Builds zero rows s = (omega arith, refl)
  build_tree-Builds (suc levels) rows s =
      let varying = ranges rows 0 (dims_of rows) in
      let (i, s') = random_index F (length varying) s in
      let (x, s'') = random F s' in
      of_either (λ t. (height t.0 ≤ suc levels) × (size_of t.0 ≡ length rows))
        (leb (length rows) 1 || (dims_of rows == 0) || (length varying == 0))
        (leaf (length rows), s) (grow F (build_tree F levels) (get_elem? varying i) x rows s'')
        (omega arith, refl)
        (grow-Builds levels (build_tree F levels) (get_elem? varying i) x
          (λ rows' t. build_tree-Builds levels rows' t) rows s'')

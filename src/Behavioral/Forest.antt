-- ===== src/Behavioral/Forest.antt =====
-- IsolationForest of packages/core/src/behavioral/forest.ts. The generator's 32-bit state is passed
-- on explicitly; a tree is built with the levels that are left, `maxDepth - depth`, as its fuel.
pub mod Shape
use Prim.Native.Nat.{bit_and, bit_or, bit_xor}
use agentct.Base.{
  ℕ, suc, zero, ◌+◌, ◌-◌, ◌*◌, ◌/◌, ◌%◌, ◌^◌, leb, ltb, ◌==◌, ℤ, pos, min, max, length, get_elem?,
  or_else, filter, Bool, true, false, not, ◌&&◌, ◌||◌, Option, none, some, List, [], ◌∷◌, ◌++◌,
  if◌then◌else◌,
}
use agentct.Base.Double
use agentct.Base.Double.{Double, lt, zero_double, one_double, infinity}
use agentct.Behavioral.Numbers.{FloatOps}
use agentct.Behavioral.Baseline.{Vector}

pub record ForestOptions : Type 0 where
  pub trees : Option ℕ
  pub sample_size : Option ℕ
  pub seed : Option ℕ

pub data Node : Type 0 where
  leaf : (size : ℕ) → Node
  split : (f : ℕ) (v : Double) (l r : Node) → Node

pub record Forest : Type 0 where
  pub trees : List Node
  pub sample_size : ℕ

-- `Math.imul(a, b)`, on the 32 bits.
unfoldable pub imul : ℕ → ℕ → ℕ
imul a b = a * b % 2 ^ 32

-- One call of the generator: the number it draws, out of 2^32, and the state it leaves.
unfoldable pub mulberry32 : ℕ → ℕ × ℕ
unfolding imul
mulberry32 s =
    let s' = (s + 0x6d2b79f5) % 2 ^ 32 in
    let t = imul (bit_xor s' (s' / 2 ^ 15)) (bit_or 1 s') in
    let u = bit_xor ((t + imul (bit_xor t (t / 2 ^ 7)) (bit_or 61 t)) % 2 ^ 32) t in
    (bit_xor u (u / 2 ^ 14), s')

-- `row[f] ?? 0`
abbrev pub feature : Vector → ℕ → Double
feature row f = or_else (get_elem? row f) zero_double

-- The least and the greatest value of a feature, by the loop over the rows.
unfoldable pub extent : ℕ → List Vector → Double × Double → Double × Double
unfolding lt
extent f [] (least, greatest) = (least, greatest)
extent f (row ∷ rows) (least, greatest) =
    let x = feature row f in
    extent f rows (if lt x least then x else least, if lt greatest x then x else greatest)

-- The features that vary, from `f` on.
unfoldable pub ranges : List Vector → ℕ → ℕ → List (ℕ × Double × Double)
unfolding extent
ranges rows f zero = []
ranges rows f (suc dims) =
    let (least, greatest) = extent f rows (infinity, Double.neg infinity) in
    let rest = ranges rows (f + 1) dims in
    if lt least greatest then (f, least, greatest) ∷ rest else rest

-- The rows below the split value, and the others.
abbrev pub below : ℕ → Double → Vector → Bool
below f v row = lt (feature row f) v

-- `data[0]?.length ?? 0`
abbrev pub dims_of : List Vector → ℕ
dims_of [] = 0
dims_of (row ∷ _) = length row

-- 0.5772156649, the Euler-Mascheroni constant as the source writes it.
abbrev pub euler : Double
euler = record { bits = 0x3fe2_788c_fc6f_802a }

module _ (F : FloatOps) where
  -- `rng()`
  unfoldable pub random : ℕ → Double × ℕ
  unfolding mulberry32
  random s = let (t, s') = mulberry32 s in (F.div (F.of_int (pos t)) (F.of_int (pos (2 ^ 32))), s')

  -- `Math.floor(rng() * n)`
  unfoldable pub random_index : ℕ → ℕ → ℕ × ℕ
  unfolding random
  random_index n s = let (x, s') = random s in (F.floor (F.mul x (F.of_int (pos n))), s')

  -- Average path length of an unsuccessful search over `n` points; `euler` is 0.5772156649.
  unfoldable pub c : ℕ → Double
  c n =
      if leb n 1
      then zero_double
      else let two = F.of_int (pos 2) in
        let less = F.of_int (pos (n - 1)) in
        let harmonic = F.add (F.log less) euler in
        F.sub (F.mul two harmonic) (F.div (F.mul two less) (F.of_int (pos n)))

  -- The loop of `subsample`, with the draws that are left.
  unfoldable pub draw : List Vector → ℕ → ℕ → List Vector × ℕ
  unfolding random_index
  draw rows zero s = ([], s)
  draw rows (suc k) s =
      let (i, s') = random_index (length rows) s in
      let (rest, s'') = draw rows k s' in
      (elim (get_elem? rows i) [ none ↦ rest | some row ↦ row ∷ rest ], s'')

  unfoldable pub subsample : List Vector → ℕ → ℕ → List Vector × ℕ
  unfolding draw
  subsample rows k s = if leb (length rows) k then (rows, s) else draw rows k s

  -- A node that splits at the range that was picked: the left subtree is built first. `build` makes
  -- the subtrees. The source asserts that the pick is in range; `none` is the other case.
  unfoldable pub grow :
      (List Vector → ℕ → Node × ℕ)
      → Option (ℕ × Double × Double)
      → Double
      → List Vector
      → ℕ
      → Node × ℕ
  grow build none x rows s = (leaf (length rows), s)
  grow build (some (f, least, greatest)) x rows s =
      let v = F.add least (F.mul x (F.sub greatest least)) in
      let (l, s') = build (filter (below f v) rows) s in
      let (r, s'') = build (filter (λ row. not (below f v row)) rows) s' in (split f v l r, s'')

  unfoldable pub build_tree : ℕ → List Vector → ℕ → Node × ℕ
  build_tree zero rows s = (leaf (length rows), s)
  build_tree (suc levels) rows s =
      let varying = ranges rows 0 (dims_of rows) in
      let (i, s') = random_index (length varying) s in
      let (x, s'') = random s' in
      let grown = grow (build_tree levels) (get_elem? varying i) x rows s'' in
      if leb (length rows) 1 || (dims_of rows == 0) || (length varying == 0)
      then (leaf (length rows), s)
      else grown

  unfoldable pub path_length : Vector → Node → ℕ → Double
  unfolding c lt
  path_length x (leaf size) depth = F.add (F.of_int (pos depth)) (c size)
  path_length x (split f v l r) depth =
      let left = path_length x l (depth + 1) in
      let right = path_length x r (depth + 1) in if below f v x then left else right

  -- The loop of the constructor, with the trees that are left.
  unfoldable pub build_trees : ℕ → List Vector → ℕ → ℕ → ℕ → List Node
  unfolding subsample build_tree
  build_trees zero rows sample_size max_depth s = []
  build_trees (suc k) rows sample_size max_depth s =
      let (sample, s') = subsample rows sample_size s in
      let (tree, s'') = build_tree max_depth sample s' in
      tree ∷ build_trees k rows sample_size max_depth s''

  abbrev pub sample_size_of : ForestOptions → List Vector → ℕ
  sample_size_of opts rows = max 1 (min (or_else opts.sample_size 256) (length rows))

  unfoldable pub new_forest : List Vector → ForestOptions → Forest
  unfolding build_trees
  new_forest rows opts =
      let sample_size = sample_size_of opts rows in
      let max_depth = F.ceil (F.log2 (F.of_int (pos (max 2 sample_size)))) in
      record {
        trees =
            build_trees (or_else opts.trees 100) rows sample_size max_depth
              (or_else opts.seed 1337 % 2 ^ 32);
        sample_size = sample_size;
      }

  unfoldable pub sum_lengths : Vector → List Node → Double → Double
  unfolding path_length
  sum_lengths x [] sum = sum
  sum_lengths x (tree ∷ trees) sum = sum_lengths x trees (F.add sum (path_length x tree 0))

  unfoldable pub anomaly_score : Forest → Vector → Double
  unfolding sum_lengths c
  anomaly_score forest x =
      let mean =
        F.div (sum_lengths x forest.trees zero_double) (F.of_int (pos (length forest.trees))) in
      let cn = c forest.sample_size in
      if length forest.trees == 0
      then zero_double
      else if Double.eq cn zero_double
      then zero_double
      else F.pow (F.of_int (pos 2)) (F.div (Double.neg mean) cn)

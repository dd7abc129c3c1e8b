-- ===== src/JdServer/Engine/Merkle.antt =====
-- `DeclaredCustomJob::get_merkle_path`: the branch of the coinbase in the tree of transaction
-- identifiers, against the root of the whole tree.
use sv2_apps_fork.Prelude.{
  ℕ, zero, suc, ◌+◌, ◌*◌, ◌-◌, ◌/◌, ◌≤◌, ◌≡◌, refl, ap, ◌∙◌, List, [], ◌∷◌, length, arith,
}
use mathlib.Core.Path.{ap₂, subst}

abbrev get_or : List ℕ → ℕ → ℕ → ℕ
get_or [] i d = d
get_or (x ∷ xs) zero d = x
get_or (x ∷ xs) (suc i) d = get_or xs i d

abbrev min : ℕ → ℕ → ℕ
min a b = a - (a - b)

module _ (hash_nodes : ℕ → ℕ → ℕ) where
  -- `for idx in from..from + count`
  level_from : List ℕ → ℕ → ℕ → List ℕ
  level_from hashes from zero = []
  level_from hashes from (suc count) =
      let left = get_or hashes (2 * from) 0 in
      let right = get_or hashes (min (2 * from + 1) (length hashes - 1)) 0 in
      hash_nodes left right ∷ level_from hashes (from + 1) count

  -- `div_ceil(2)` nodes
  unfoldable pub next_level : List ℕ → List ℕ
  unfolding level_from
  next_level hashes = level_from hashes 0 ((length hashes + 1) / 2)

  -- The `while` loop; the fuel is the number of nodes, and each round halves them.
  branch_loop : ℕ → List ℕ → List ℕ
  branch_loop zero hashes = []
  branch_loop (suc fuel) [] = []
  branch_loop (suc fuel) (x ∷ []) = []
  branch_loop (suc fuel) (x ∷ y ∷ r) = y ∷ branch_loop fuel (next_level (x ∷ y ∷ r))

  unfoldable pub merkle_branch : List ℕ → List ℕ
  unfolding branch_loop next_level
  merkle_branch hashes = branch_loop (length hashes) hashes

  shifted :
      (x y : ℕ) (r : List ℕ) (i : ℕ)
      → 2 * i + 1 ≤ length r
      → hash_nodes
          (get_or (x ∷ y ∷ r) (2 * (i + 1)) 0)
          (get_or (x ∷ y ∷ r) (min (2 * (i + 1) + 1) (length (x ∷ y ∷ r) - 1)) 0)
        ≡ hash_nodes (get_or r (2 * i) 0) (get_or r (min (2 * i + 1) (length r - 1)) 0)
  shifted x y r i h =
      let left : 2 * (i + 1) ≡ suc (suc (2 * i)) = omega arith in
      let right : min (2 * (i + 1) + 1) (length (x ∷ y ∷ r) - 1)
          ≡ suc (suc (min (2 * i + 1) (length r - 1))) =
        omega arith in
      ap₂ (λ a b. hash_nodes (get_or (x ∷ y ∷ r) a 0) (get_or (x ∷ y ∷ r) b 0)) left right

  level_from-cons :
      (x y : ℕ) (r : List ℕ) (from count : ℕ)
      → 2 * (from + count) ≤ length r + 1
      → level_from (x ∷ y ∷ r) (from + 1) count ≡ level_from r from count
  unfolding level_from
  level_from-cons x y r from zero h = refl
  level_from-cons x y r from (suc count) h =
      ap₂ ◌∷◌ (shifted x y r from (omega arith))
        (level_from-cons x y r (from + 1) count (omega arith))

  -- A level is made of pairs, the last node of an odd level with itself.
  next_level-cons : (x y : ℕ) (r : List ℕ) → next_level (x ∷ y ∷ r) ≡ hash_nodes x y ∷ next_level r
  unfolding next_level
  next_level-cons x y r =
      let half : (length (x ∷ y ∷ r) + 1) / 2 ≡ suc ((length r + 1) / 2) = omega arith in
      let second : min 1 (length (x ∷ y ∷ r) - 1) ≡ 1 = omega arith in
      rw half (
        ap₂ (λ a l. hash_nodes x (get_or (x ∷ y ∷ r) a 0) ∷ l) second
          (level_from-cons x y r 0 ((length r + 1) / 2) (omega arith)))

  next_level-singleton : (x : ℕ) → next_level (x ∷ []) ≡ hash_nodes x x ∷ []
  unfolding next_level
  next_level-singleton x = refl

  length-level_from :
      (hashes : List ℕ) (from count : ℕ) → length (level_from hashes from count) ≡ count
  unfolding level_from
  length-level_from hashes from zero = refl
  length-level_from hashes from (suc count) =
      omega (arith, length-level_from hashes (from + 1) count)

  length-next_level : (hashes : List ℕ) → length (next_level hashes) ≡ (length hashes + 1) / 2
  unfolding next_level
  length-next_level hashes = length-level_from hashes 0 ((length hashes + 1) / 2)

  -- The nodes of a level in pairs, an odd last one with itself.
  abbrev pub pairs : List ℕ → List ℕ
  pairs [] = []
  pairs (x ∷ []) = hash_nodes x x ∷ []
  pairs (x ∷ y ∷ r) = hash_nodes x y ∷ pairs r

  next_level-pairs : (hashes : List ℕ) → next_level hashes ≡ pairs hashes
  unfolding next_level
  next_level-pairs [] = refl
  next_level-pairs (x ∷ []) = refl
  next_level-pairs (x ∷ y ∷ r) =
      next_level-cons x y r ∙ ap (λ l. hash_nodes x y ∷ l) (next_level-pairs r)

  -- The root of a tree of at least one leaf.
  pub data MerkleRoot : List ℕ → ℕ → Type 0 where
    leaf : (x : ℕ) → MerkleRoot (x ∷ []) x
    level :
        (x y : ℕ) (r : List ℕ) (root : ℕ)
        → MerkleRoot (pairs (x ∷ y ∷ r)) root
        → MerkleRoot (x ∷ y ∷ r) root

  -- What a miner computes from the coinbase and the branch.
  abbrev pub climb : ℕ → List ℕ → ℕ
  climb node [] = node
  climb node (sibling ∷ branch) = climb (hash_nodes node sibling) branch

  branch_loop-MerkleRoot :
      (fuel x : ℕ) (r : List ℕ)
      → length (x ∷ r) ≤ fuel
      → MerkleRoot (x ∷ r) (climb x (branch_loop fuel (x ∷ r)))
  unfolding branch_loop
  branch_loop-MerkleRoot zero x r h = elim h [ ]
  branch_loop-MerkleRoot (suc fuel) x [] h = leaf x
  branch_loop-MerkleRoot (suc fuel) x (y ∷ r) h =
      let tree =
        branch_loop-MerkleRoot fuel (hash_nodes x y) (next_level r)
          (omega (arith, length-next_level r)) in
      level x y r _ (
        subst
          (λ l.
            MerkleRoot (hash_nodes x y ∷ l)
              (climb (hash_nodes x y) (branch_loop fuel (next_level (x ∷ y ∷ r)))))
          (next_level-pairs r) (rw (next_level-cons x y r) tree))

  branch_loop_ignores_coinbase :
      (fuel x x' : ℕ) (r : List ℕ) → branch_loop fuel (x ∷ r) ≡ branch_loop fuel (x' ∷ r)
  unfolding branch_loop
  branch_loop_ignores_coinbase zero x x' r = refl
  branch_loop_ignores_coinbase (suc fuel) x x' [] = refl
  branch_loop_ignores_coinbase (suc fuel) x x' (y ∷ r) =
      rw (next_level-cons x y r, next_level-cons x' y r)
        (ap (λ l. y ∷ l)
          (branch_loop_ignores_coinbase fuel (hash_nodes x y) (hash_nodes x' y) (next_level r)))

  -- The branch that is computed for one coinbase leads any coinbase in its place to the root of the
  -- tree of that coinbase and the same transactions: the loop ends, and the miner may roll the
  -- extranonce without a new branch.
  pub merkle_branch-MerkleRoot :
      (coinbase coinbase' : ℕ) (txids : List ℕ)
      → MerkleRoot (coinbase' ∷ txids) (climb coinbase' (merkle_branch (coinbase ∷ txids)))
  unfolding merkle_branch
  merkle_branch-MerkleRoot coinbase coinbase' txids =
      rw (branch_loop_ignores_coinbase (length (coinbase ∷ txids)) coinbase coinbase' txids)
        (branch_loop-MerkleRoot (length (coinbase ∷ txids)) coinbase' txids (omega arith))

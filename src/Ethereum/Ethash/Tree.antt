-- ===== src/Ethereum/Ethash/Tree.antt =====
-- The Merkle tree over an Ethash dataset: what `apply_merkle_proof` is meant to check.
use polkadot_ethereum.Core.{Bytes}
use polkadot_ethereum.Prelude.{
  ℕ, List, [], ◌∷◌, ◌++◌, some, if◌then◌else◌, ◌+◌, ◌/◌, ◌%◌, ◌^◌, zero, suc, ◌==◌, length, ◌≡◌,
  ◌≢◌, ◌⊎◌, ◌<◌, inl, inr, refl, arith, Bool-cases,
}
use polkadot_ethereum.Prelude.Eq.{list_beq, list_beq_iff, nat_eq}
use polkadot_ethereum.Ethereum.Ethash.{
  EthashCrate, DoubleNodeWithMerkleProof, hash_h128, leaf_hash, climb, merkle_join,
  truncate_to_h128,
}

-- A complete tree, whose leaves are pairs of words of the dataset.
pub data Tree : ℕ → Type 0 where
  leaf : Bytes × Bytes → Tree zero
  node : {n : ℕ} → Tree n → Tree n → Tree (suc n)

-- The leaf at a place, which its binary digits lead to from the root.
unfoldable pub leaf_at : {n : ℕ} → Tree n → ℕ → Bytes × Bytes
leaf_at (leaf nodes) place = nodes
leaf_at (node {n} l r) place = if (place / 2 ^ n) % 2 == 0 then leaf_at l place else leaf_at r place

-- Every word has 64 bytes.
abbrev pub IsSized : {n : ℕ} → Tree n → Type 0
IsSized (leaf nodes) = (length nodes.0 ≡ 64) × (length nodes.1 ≡ 64)
IsSized (node l r) = IsSized l × IsSized r

module _ (crate : EthashCrate) where
  unfoldable pub root : {n : ℕ} → Tree n → Bytes
  root (leaf nodes) = leaf_hash crate nodes
  root (node l r) = hash_h128 crate (root l) (root r)

  -- The siblings on the way from a leaf up to the root.
  unfoldable pub path_at : {n : ℕ} → Tree n → ℕ → List Bytes
  path_at (leaf nodes) place = []
  path_at (node {n} l r) place =
      if (place / 2 ^ n) % 2 == 0
      then path_at l place ++ root r ∷ []
      else path_at r place ++ root l ∷ []

  -- The node and the proof that a relayer gives for a place.
  unfoldable pub prove : {n : ℕ} → Tree n → ℕ → DoubleNodeWithMerkleProof
  unfolding leaf_at path_at
  prove t place = record { dag_nodes = leaf_at t place; path = path_at t place }

  -- SHA-256 gives 32 bytes.
  pub record IsHash : Type 0 where
    pub sized : (bytes : Bytes) → length (crate.sha2_256 bytes) ≡ 32

  -- Two different strings with the same truncated hash.
  pub record Collision : Type 0 where
    pub left : Bytes
    pub right : Bytes
    pub differ : left ≢ right
    pub collide :
        truncate_to_h128 crate (crate.sha2_256 left) ≡ truncate_to_h128 crate (crate.sha2_256 right)

  -- Equal hashes are hashes of the same string, or there is a collision.
  pub hashed :
      (x y : Bytes)
      → truncate_to_h128 crate (crate.sha2_256 x) ≡ truncate_to_h128 crate (crate.sha2_256 y)
      → (x ≡ y) ⊎ Collision
  hashed x y e = elim (Bool-cases (list_beq x y)) [
    | inl same ↦ inl ((list_beq_iff x y).0 same)
    | inr other ↦ inr (record {
      left = x;
      right = y;
      differ = λ same. cc (other, (list_beq_iff x y).1 same);
      collide = e;
    })
  ]

  -- The last round of the loop.
  pub climb-append_ok :
      (place i : ℕ) (v u : Bytes) (path : List Bytes) (sibling : Bytes)
      → climb crate place i v path ≡ some u
      → i + length path < 64
      → climb crate place i v (path ++ sibling ∷ [])
        ≡ some (merkle_join crate place (i + length path) u sibling)
  unfolding climb
  climb-append_ok place i v u [] sibling e lt = ground (arith, lt, e)
  climb-append_ok place i v u (h ∷ path) sibling e lt =
      ground
        (arith, lt, e, climb-append_ok place (i + 1) (merkle_join crate place i v h) u path sibling)

  pub climb-append_inv :
      (place i : ℕ) (v w : Bytes) (path : List Bytes) (sibling : Bytes)
      → climb crate place i v (path ++ sibling ∷ []) ≡ some w
      → (u : Bytes) × (climb crate place i v path ≡ some u)
        × (w ≡ merkle_join crate place (i + length path) u sibling)
  unfolding climb
  climb-append_inv place i v w [] sibling e = (v, refl, ground (arith, e))
  climb-append_inv place i v w (h ∷ path) sibling e =
      let (u, f, g) =
        climb-append_inv place (i + 1) (merkle_join crate place i v h) w path sibling
          (ground (arith, e)) in
      (u, ground (arith, e, f), ground (arith, g))

-- ===== src/Ethereum/Ethash/Rounds.antt =====
-- The rounds of `apply_merkle_proof`, and that the path of a place leads to the root.
use polkadot_ethereum.Core.{Bytes}
use polkadot_ethereum.Prelude.{
  ℕ, [], ◌∷◌, some, ◌+◌, ◌/◌, ◌%◌, ◌^◌, ◌==◌, length, true, false, ◌≡◌, ◌≤◌, inl, inr, refl, arith,
  ap, ◌∙◌, Bool-cases, length-append,
}
use polkadot_ethereum.Ethereum.Ethash.{EthashCrate, hash_h128, leaf_hash, climb, merkle_join}
use polkadot_ethereum.Ethereum.Ethash.Tree.{
  Tree, leaf, node, leaf_at, root, path_at, climb-append_ok,
}

module _ (crate : EthashCrate) where
  -- The path of a place leads from its leaf to the root.
  length-path_at : {n : ℕ} (t : Tree n) (place : ℕ) → length (path_at crate t place) ≡ n
  unfolding path_at
  length-path_at (leaf d) place = refl
  length-path_at (node l r) place = ground (
    arith,
    length-append {0} (path_at crate l place) (root crate r ∷ []),
    length-append {0} (path_at crate r place) (root crate l ∷ []),
    length-path_at l place,
    length-path_at r place,
  )

  pub join_even :
      (place i : ℕ) (v s : Bytes)
      → ((place / 2 ^ i) % 2 == 0) ≡ true
      → merkle_join crate place i v s ≡ hash_h128 crate v s
  unfolding merkle_join
  join_even place i v s e = rw e

  pub join_odd :
      (place i : ℕ) (v s : Bytes)
      → ((place / 2 ^ i) % 2 == 0) ≡ false
      → merkle_join crate place i v s ≡ hash_h128 crate s v
  unfolding merkle_join
  join_odd place i v s e = rw e

  pub climb-path_at :
      {n : ℕ} (t : Tree n) (place : ℕ)
      → n ≤ 64
      → climb crate place 0 (leaf_hash crate (leaf_at t place)) (path_at crate t place)
        ≡ some (root crate t)
  unfolding leaf_at path_at root climb
  climb-path_at (leaf d) place le = refl
  climb-path_at (node {n} l r) place le = elim (Bool-cases ((place / 2 ^ n) % 2 == 0)) [
    | inl even ↦
        let at : 0 + length (path_at crate l place) ≡ n = omega (arith, length-path_at l place) in
        let step =
          climb-append_ok crate place 0 (leaf_hash crate (leaf_at l place)) (root crate l)
            (path_at crate l place) (root crate r) (climb-path_at l place (omega arith))
            (omega arith) in
        rw even (
          step
          ∙ ap some (
              ap (λ i. merkle_join crate place i (root crate l) (root crate r)) at
              ∙ join_even place n (root crate l) (root crate r) even))
    | inr odd ↦
        let at : 0 + length (path_at crate r place) ≡ n = omega (arith, length-path_at r place) in
        let step =
          climb-append_ok crate place 0 (leaf_hash crate (leaf_at r place)) (root crate r)
            (path_at crate r place) (root crate l) (climb-path_at r place (omega arith))
            (omega arith) in
        rw odd (
          step
          ∙ ap some (
              ap (λ i. merkle_join crate place i (root crate r) (root crate l)) at
              ∙ join_odd place n (root crate r) (root crate l) odd))
  ]

-- ===== src/Ethereum/Mpt/Inclusion.antt =====
-- What an accepted inclusion proof is: a chain of nodes, each holding the hash of the one below it.
use polkadot_ethereum.Core.{H256, Bytes}
use polkadot_ethereum.Ethereum.{Codec}
use polkadot_ethereum.Ethereum.Mpt.{
  Node, decode_node, decode_short, contains_hash, merkle_step, fold_proof, apply_from_leaf,
  apply_merkle_proof,
}
use polkadot_ethereum.Prelude.{
  true, none, arith, ◌∷◌, List, ◌≡◌, some, refl, ◌↔◌, [], Option-cases, reverse, inl, inr, ap,
}

module _ (c : Codec) where
  open c use {keccak_256}

  -- From a node with hash `below`, the nodes of the list lead up to the hash `root`.
  abbrev pub LeadsTo : H256 → List Bytes → H256 → Type 0
  LeadsTo below [] root = below ≡ root
  LeadsTo below (bytes ∷ rest) root =
      (node : Node) × (decode_node c bytes ≡ some node)
      × (contains_hash c node below ≡ true)
      × LeadsTo (keccak_256 bytes) rest root

  fold_none : (rest : List Bytes) → fold_proof c none rest ≡ none
  unfolding fold_proof merkle_step
  fold_none [] = refl
  fold_none (b ∷ rest) = fold_none rest

  step_accepts :
      (below : H256) (b : Bytes) (node : Node)
      → decode_node c b ≡ some node
      → contains_hash c node below ≡ true
      → merkle_step c (some below) b ≡ some (keccak_256 b)
  unfolding merkle_step
  step_accepts below b node e h = ground arith

  step_inverts :
      (below above : H256) (b : Bytes)
      → merkle_step c (some below) b ≡ some above
      → (above ≡ keccak_256 b)
        × ((node : Node) × (decode_node c b ≡ some node) × (contains_hash c node below ≡ true))
  unfolding merkle_step
  step_inverts below above b h = elim (Option-cases (decode_node c b)) [
    | inl e ↦ ground arith
    | inr (node, e) ↦ (ground arith, (node, e, ground arith))
  ]

  fold_sound :
      (below : H256) (rest : List Bytes) (root : H256)
      → fold_proof c (some below) rest ≡ some root
      → LeadsTo below rest root
  unfolding fold_proof
  fold_sound below [] root h = ground arith
  fold_sound below (b ∷ rest) root h = elim (Option-cases (merkle_step c (some below) b)) [
    | inl e ↦ cc (fold_none rest, ap (λ o. fold_proof c o rest) e)
    | inr (above, e) ↦
        let (up, (node, dec, has)) = step_inverts below above b e in
        (
          node,
          dec,
          has,
          fold_sound (keccak_256 b) rest root
              (cc (ap (λ o. fold_proof c o rest) e, ap (λ o. fold_proof c (some o) rest) up)),
        )
  ]

  fold_complete :
      (below : H256) (rest : List Bytes) (root : H256)
      → LeadsTo below rest root
      → fold_proof c (some below) rest ≡ some root
  unfolding fold_proof
  fold_complete below [] root h = ground arith
  fold_complete below (b ∷ rest) root (node, dec, has, up) =
      rw (step_accepts below b node dec has) (fold_complete (keccak_256 b) rest root up)

  -- The rows of an accepted proof, the leaf first.
  abbrev pub Included : List Bytes → H256 → Bytes → Type 0
  Included [] root value = ⊥
  Included (leaf ∷ rest) root value =
      (key : Bytes) × (decode_short c leaf ≡ some (record { key = key; value = value }))
      × LeadsTo (keccak_256 leaf) rest root

  leaf_sound :
      (rows : List Bytes) (root : H256) (value : Bytes)
      → apply_from_leaf c rows ≡ some (root, value)
      → Included rows root value
  unfolding apply_from_leaf
  leaf_sound [] root value h = ground arith
  leaf_sound (leaf ∷ rest) root value h = elim (Option-cases (decode_short c leaf)) [
    | inl e ↦ ground arith
    | inr (node, e) ↦
        (node.key, ground arith, fold_sound (keccak_256 leaf) rest root (ground arith))
  ]

  leaf_complete :
      (rows : List Bytes) (root : H256) (value : Bytes)
      → Included rows root value
      → apply_from_leaf c rows ≡ some (root, value)
  unfolding apply_from_leaf
  leaf_complete [] root value h = elim h [ ]
  leaf_complete (leaf ∷ rest) root value (key, dec, up) =
      ground (arith, fold_complete (keccak_256 leaf) rest root up)

  pub apply_merkle_proof_iff :
      (proof : List Bytes) (root : H256) (value : Bytes)
      → (apply_merkle_proof c proof ≡ some (root, value)) ↔ Included (reverse proof) root value
  unfolding apply_merkle_proof
  apply_merkle_proof_iff proof root value =
      (leaf_sound (reverse proof) root value, leaf_complete (reverse proof) root value)

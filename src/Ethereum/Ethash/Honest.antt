-- ===== src/Ethereum/Ethash/Honest.antt =====
-- `hashimoto_merkle` accepts the proofs of a relayer that has the dataset.
use polkadot_ethereum.Core.{Bytes, H256}
use polkadot_ethereum.Frame.{ok}
use polkadot_ethereum.Prelude.{
  ℕ, List, [], ◌∷◌, some, true, if◌then◌else◌, ◌+◌, ◌/◌, ◌%◌, ◌==◌, length, map, drop, get_elem?,
  ◌≡◌, ◌≤◌, inl, inr, refl, arith, sym, ap, ◌∙◌, Bool-cases, zero, suc,
}
use polkadot_ethereum.Prelude.Eq.{beq_refl, list_eq, nat_eq}
use polkadot_ethereum.Ethereum.Ethash.{
  EthashCrate, DoubleNodeWithMerkleProof, Lookups, finished, looks_up, apply_merkle_proof, passes,
  run, hashimoto_merkle, dag_merkle_root, epoch_length,
}
use polkadot_ethereum.Ethereum.Ethash.Tree.{Tree, leaf_at, root, prove}
use polkadot_ethereum.Ethereum.Ethash.Rounds.{climb-path_at}
use polkadot_ethereum.Ethereum.Ethash.Proved.{ReadsPairs, dataset_word, full_hashimoto, word_same}

-- The pairs of words that it reads from the lookup `idx` on.
unfoldable pub pairs_read : {n : ℕ} → Tree n → ℕ → Lookups → List ℕ
pairs_read t idx (finished results) = []
pairs_read t idx (looks_up offset next) =
    let rest = pairs_read t (idx + 1) (next (dataset_word t offset)) in
    if idx % 2 == 0 then (offset / 2) ∷ rest else rest

drop_head :
    (n : ℕ) (xs ys : List DoubleNodeWithMerkleProof) (y : DoubleNodeWithMerkleProof)
    → drop n xs ≡ y ∷ ys
    → (get_elem? xs n ≡ some y) × (drop (suc n) xs ≡ ys)
drop_head zero [] ys y e = cc
drop_head zero (x ∷ xs) ys y e = (cc e, cc e)
drop_head (suc n) [] ys y e = cc
drop_head (suc n) (x ∷ xs) ys y e = drop_head n xs ys y e

module _ (crate : EthashCrate) {n : ℕ} (t : Tree n) where
  length-pairs_read :
      (l : Lookups) (idx last : ℕ)
      → ReadsPairs idx last l
      → (idx + 1) / 2 + length (map (prove crate t) (pairs_read t idx l)) ≡ 64
  unfolding pairs_read
  length-pairs_read (finished r) idx last p = omega (arith, p)
  length-pairs_read (looks_up offset next) idx last p = elim (Bool-cases (idx % 2 == 0)) [
    | inl even ↦
        let even' : idx % 2 ≡ 0 = ground (arith, even) in
        rw even (
          omega (
            arith,
            even',
            length-pairs_read (next (dataset_word t offset)) (idx + 1) offset
                (p.3 (dataset_word t offset)),
          ))
    | inr odd ↦
        let odd' : idx % 2 ≡ 1 = ground (arith, odd) in
        rw odd (
          omega (
            arith,
            odd',
            length-pairs_read (next (dataset_word t offset)) (idx + 1) offset
                (p.3 (dataset_word t offset)),
          ))
  ]

  prove-passes :
      (offset idx : ℕ)
      → n ≤ 64
      → passes crate (root crate t) (prove crate t (offset / 2)) offset idx ≡ true
  unfolding passes prove apply_merkle_proof
  prove-passes offset idx le =
      ground (arith, climb-path_at crate t (offset / 2) le, beq_refl (root crate t))

  -- A lookup of an honest node goes on with the word of the dataset.
  run_step :
      (nodes : List DoubleNodeWithMerkleProof) (offset idx : ℕ) (next : Bytes → Lookups)
      → n ≤ 64
      → get_elem? nodes (idx / 2) ≡ some (prove crate t (offset / 2))
      → idx % 2 ≡ offset % 2
      → run crate nodes (root crate t) (looks_up offset next) idx true
        ≡ run crate nodes (root crate t) (next (dataset_word t offset)) (idx + 1) true
  unfolding run dataset_word prove
  run_step nodes offset idx next le e par =
      ground
        (arith, e, prove-passes offset idx le, word_same (leaf_at t (offset / 2)) idx offset par)

  run_complete :
      (nodes : List DoubleNodeWithMerkleProof) (l : Lookups) (idx last : ℕ)
      → n ≤ 64
      → ReadsPairs idx last l
      → drop ((idx + 1) / 2) nodes ≡ map (prove crate t) (pairs_read t idx l)
      → (idx % 2 ≡ 1
          → (get_elem? nodes (idx / 2) ≡ some (prove crate t (last / 2))) × (last % 2 ≡ 0))
      → run crate nodes (root crate t) l idx true ≡ some (full_hashimoto t l, true)
  unfolding full_hashimoto pairs_read
  run_complete nodes (finished r) idx last le p d at = unfold run in refl
  run_complete nodes (looks_up offset next) idx last le p d at = elim (Bool-cases (idx % 2 == 0)) [
    | inl even ↦
        let even' : idx % 2 ≡ 0 = ground (arith, even) in
        let par : idx % 2 ≡ offset % 2 = omega (arith, even', p.1 even') in
        let half : (idx + 1) / 2 ≡ idx / 2 = omega (arith, even') in
        let half' : (idx + 1 + 1) / 2 ≡ suc (idx / 2) = omega (arith, even') in
        let (here, rest) =
          drop_head (idx / 2) nodes
            (map (prove crate t) (pairs_read t (idx + 1) (next (dataset_word t offset))))
            (prove crate t (offset / 2)) (ap (λ k. drop k nodes) (sym half) ∙ (d ∙ rw even refl)) in
        run_step nodes offset idx next le here par
        ∙ run_complete nodes (next (dataset_word t offset)) (idx + 1) offset le
            (p.3 (dataset_word t offset)) (ap (λ k. drop k nodes) half' ∙ rest)
            (λ odd. (ap (get_elem? nodes) half ∙ here, p.1 even'))
    | inr odd ↦
        let odd' : idx % 2 ≡ 1 = ground (arith, odd) in
        let (here, before) = at odd' in
        let by : offset ≡ last + 1 = p.2 odd' in
        let par : idx % 2 ≡ offset % 2 = omega (arith, odd', by, before) in
        let same : last / 2 ≡ offset / 2 = omega (arith, by, before) in
        let half : (idx + 1 + 1) / 2 ≡ (idx + 1) / 2 = omega (arith, odd') in
        run_step nodes offset idx next le (here ∙ ap (λ k. some (prove crate t k)) same) par
        ∙ run_complete nodes (next (dataset_word t offset)) (idx + 1) offset le
            (p.3 (dataset_word t offset)) (ap (λ k. drop k nodes) half ∙ (d ∙ rw odd refl))
            (λ even. absurd (omega (arith, even, odd')))
  ]

-- If the root of the epoch is that of a tree over the dataset, of depth 64 at most, and the crate reads
-- the dataset two words at a time, 128 in all, then the proofs that are made from the tree, one for
-- each pair of words that Ethash reads, are accepted with the result that Ethash has with the whole
-- dataset.
pub hashimoto_merkle_complete :
    (crate : EthashCrate) {n : ℕ} (t : Tree n) (header_hash : H256) (nonce : Bytes)
    (header_number : ℕ)
    → n ≤ 64
    → dag_merkle_root (header_number / epoch_length) ≡ some (root crate t)
    → ReadsPairs 0 0 (
        crate.hashimoto_with_hasher header_hash nonce
          (crate.get_full_size (header_number / epoch_length)))
    → hashimoto_merkle crate header_hash nonce header_number (
        map (prove crate t) (
          pairs_read t 0 (
            crate.hashimoto_with_hasher header_hash nonce
              (crate.get_full_size (header_number / epoch_length)))))
      ≡ ok (
          full_hashimoto t (
            crate.hashimoto_with_hasher header_hash nonce
              (crate.get_full_size (header_number / epoch_length))))
unfolding hashimoto_merkle
hashimoto_merkle_complete crate t header_hash nonce header_number le r p =
    let l =
      crate.hashimoto_with_hasher header_hash nonce
        (crate.get_full_size (header_number / epoch_length)) in
    let nodes = map (prove crate t) (pairs_read t 0 l) in
    let size : length nodes ≡ 64 = omega (arith, length-pairs_read crate t l 0 0 p) in
    let done = run_complete crate t nodes l 0 0 le p refl (λ odd. absurd (omega (arith, odd))) in
    ground (arith, r, size, done)

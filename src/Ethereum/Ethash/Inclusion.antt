-- ===== src/Ethereum/Ethash/Inclusion.antt =====
-- `apply_merkle_proof` against the tree: which nodes it leads to the root.
use polkadot_ethereum.Core.{Bytes}
use polkadot_ethereum.Prelude.{
  ℕ, List, [], ◌∷◌, ◌++◌, some, if◌then◌else◌, ◌+◌, ◌/◌, ◌%◌, ◌^◌, ◌==◌, length, ◌≡◌, ◌⊎◌, inl, inr,
  refl, arith, All, sym, ap, ◌∙◌, subst, Bool-cases, length-append, length-drop,
}
use polkadot_ethereum.Ethereum.Ethash.{
  EthashCrate, hash_h128, leaf_hash, climb, zeros, merkle_join, truncate_to_h128,
}
use polkadot_ethereum.Ethereum.Ethash.Tree.{
  Tree, leaf, node, leaf_at, IsSized, root, IsHash, Collision, hashed, climb-append_inv,
}
use polkadot_ethereum.Ethereum.Ethash.Rounds.{join_even, join_odd}

append_inj :
    (xs ys us vs : Bytes) → length xs ≡ length ys → xs ++ us ≡ ys ++ vs → (xs ≡ ys) × (us ≡ vs)
append_inj [] [] us vs h e = (refl, e)
append_inj [] (y ∷ ys) us vs h e = absurd (omega (arith, h))
append_inj (x ∷ xs) [] us vs h e = absurd (omega (arith, h))
append_inj (x ∷ xs) (y ∷ ys) us vs h e =
    let rest = append_inj xs ys us vs (omega (arith, h)) (cc e) in (cc (e, rest.0), rest.1)

Snoc-cases :
    (xs : List Bytes) → (xs ≡ []) ⊎ ((ys : List Bytes) × ((y : Bytes) × (xs ≡ ys ++ y ∷ [])))
Snoc-cases [] = inl refl
Snoc-cases (x ∷ xs) = elim (Snoc-cases xs) [
  | inl e ↦ inr ([], (x, cc e))
  | inr (ys, (y, e)) ↦ inr (x ∷ ys, (y, cc e))
]

-- The hashes of a path have 16 bytes each.
abbrev pub IsPath : List Bytes → Type 0
IsPath = All (λ (h : Bytes). length h ≡ 16)

IsPath-append : (ys : List Bytes) (y : Bytes) → IsPath (ys ++ y ∷ []) → IsPath ys × (length y ≡ 16)
IsPath-append [] y p = (tt, p.0)
IsPath-append (x ∷ ys) y p = let q = IsPath-append ys y p.1 in ((p.0, q.0), q.1)

module _ (crate : EthashCrate) (h : IsHash crate) where
  truncated_16 : (x : Bytes) → length (truncate_to_h128 crate (crate.sha2_256 x)) ≡ 16
  unfolding truncate_to_h128
  truncated_16 x = omega (arith, length-drop {0} 16 (crate.sha2_256 x), h.sized x)

  length-hash_h128 : (l r : Bytes) → length (hash_h128 crate l r) ≡ 16
  unfolding hash_h128
  length-hash_h128 l r = truncated_16 (zeros 16 ++ (l ++ (zeros 16 ++ r)))

  length-leaf_hash : (d : Bytes × Bytes) → length (leaf_hash crate d) ≡ 16
  unfolding leaf_hash
  length-leaf_hash d = truncated_16 (d.0 ++ d.1)

  length-root : {n : ℕ} (t : Tree n) → length (root crate t) ≡ 16
  unfolding root
  length-root (leaf d) = length-leaf_hash d
  length-root (node l r) = length-hash_h128 (root crate l) (root crate r)

  length-merkle_join : (place i : ℕ) (v s : Bytes) → length (merkle_join crate place i v s) ≡ 16
  unfolding merkle_join
  length-merkle_join place i v s = ground (arith, length-hash_h128 v s, length-hash_h128 s v)

  length-climb :
      (place i : ℕ) (v w : Bytes) (path : List Bytes)
      → length v ≡ 16
      → climb crate place i v path ≡ some w
      → length w ≡ 16
  unfolding climb
  length-climb place i v w [] e f = ground (arith, e, f)
  length-climb place i v w (s ∷ path) e f = ground (
    arith,
    f,
    length-climb place (i + 1) (merkle_join crate place i v s) w path,
    length-merkle_join place i v s,
  )

  -- Equal hashes of two pairs of children.
  join_inj :
      (l r l' r' : Bytes)
      → length l ≡ 16
      → length l' ≡ 16
      → hash_h128 crate l r ≡ hash_h128 crate l' r'
      → ((l ≡ l') × (r ≡ r')) ⊎ Collision crate
  unfolding hash_h128
  join_inj l r l' r' a b e =
      elim (hashed crate (zeros 16 ++ (l ++ (zeros 16 ++ r))) (zeros 16 ++ (l' ++ (zeros 16 ++ r')))
        e) [
          | inr c ↦ inr c
          | inl same ↦
              let tails = append_inj (zeros 16) (zeros 16) _ _ refl same in
              let (first, rest) = append_inj l l' _ _ (a ∙ sym b) tails.1 in
              inl (first, (append_inj (zeros 16) (zeros 16) r r' refl rest).1)
        ]

  -- An inner hash is taken of 64 bytes, a leaf's of 128.
  join_leaf :
      (l r : Bytes) (d : Bytes × Bytes)
      → length l ≡ 16
      → length r ≡ 16
      → length d.0 ≡ 64
      → length d.1 ≡ 64
      → hash_h128 crate l r ≡ leaf_hash crate d
      → Collision crate
  unfolding hash_h128 leaf_hash
  join_leaf l r d a b x y e =
      elim (hashed crate (zeros 16 ++ (l ++ (zeros 16 ++ r))) (d.0 ++ d.1) e) [
        | inr c ↦ c
        | inl same ↦ absurd (
            omega (
              arith,
              ap length same,
              length-append {0} (zeros 16) (l ++ (zeros 16 ++ r)),
              length-append {0} l (zeros 16 ++ r),
              length-append {0} (zeros 16) r,
              length-append {0} d.0 d.1,
              a,
              b,
              x,
              y,
            ))
      ]

  -- What the last round of a climb to an inner node's root says of the rounds before.
  last_round :
      {n : ℕ} (l r : Tree n) (place i : ℕ) (u y : Bytes)
      → length u ≡ 16
      → length y ≡ 16
      → hash_h128 crate (root crate l) (root crate r) ≡ merkle_join crate place i u y
      → (u ≡ (if (place / 2 ^ i) % 2 == 0 then root crate l else root crate r)) ⊎ Collision crate
  last_round l r place i u y lu ly e = elim (Bool-cases ((place / 2 ^ i) % 2 == 0)) [
    | inl even ↦
        elim (join_inj u y (root crate l) (root crate r) lu (length-root l)
          (sym (e ∙ join_even crate place i u y even))) [
            | inl (same, _) ↦ inl (rw even same)
            | inr c ↦ inr c
          ]
    | inr odd ↦
        elim (join_inj y u (root crate l) (root crate r) ly (length-root l)
          (sym (e ∙ join_odd crate place i u y odd))) [
            | inl (_, same) ↦ inl (rw odd same)
            | inr c ↦ inr c
          ]
  ]

  -- The last round of a climb.
  record LastRound (place : ℕ) (v w : Bytes) (path : List Bytes) : Type 0 where
    before : List Bytes
    sibling : Bytes
    reached : Bytes
    splits : path ≡ before ++ sibling ∷ []
    climbed : climb crate place 0 v before ≡ some reached
    joined : w ≡ merkle_join crate place (length before) reached sibling
    is_path : IsPath before
    sibling_16 : length sibling ≡ 16
    reached_16 : length reached ≡ 16

  climb_cases :
      (place : ℕ) (v w : Bytes) (path : List Bytes)
      → length v ≡ 16
      → IsPath path
      → climb crate place 0 v path ≡ some w
      → ((path ≡ []) × (v ≡ w)) ⊎ LastRound place v w path
  unfolding climb
  climb_cases place v w path lv p e = elim (Snoc-cases path) [
    | inl empty ↦ inl (empty, ground (arith, empty, e))
    | inr (ys, (s, is)) ↦
        let (u, climbed, joined) =
          climb-append_inv crate place 0 v w ys s
            (subst (λ (q : List Bytes). climb crate place 0 v q ≡ some w) is e) in
        let (py, ls) = IsPath-append ys s (subst IsPath is p) in
        let at : 0 + length ys ≡ length ys = omega arith in
        inr (record {
          before = ys;
          sibling = s;
          reached = u;
          splits = is;
          climbed = climbed;
          joined = joined ∙ ap (λ i. merkle_join crate place i u s) at;
          is_path = py;
          sibling_16 = ls;
          reached_16 = length-climb place 0 v u ys lv climbed;
        })
  ]

  leaf_join :
      (place i : ℕ) (u s : Bytes) (c : Bytes × Bytes)
      → length u ≡ 16
      → length s ≡ 16
      → length c.0 ≡ 64
      → length c.1 ≡ 64
      → leaf_hash crate c ≡ merkle_join crate place i u s
      → Collision crate
  leaf_join place i u s c lu ls x y e = elim (Bool-cases ((place / 2 ^ i) % 2 == 0)) [
    | inl even ↦ join_leaf u s c lu ls x y (sym (e ∙ join_even crate place i u s even))
    | inr odd ↦ join_leaf s u c ls lu x y (sym (e ∙ join_odd crate place i u s odd))
  ]

  leaf_inj :
      (c d : Bytes × Bytes)
      → length c.0 ≡ 64
      → length d.0 ≡ 64
      → leaf_hash crate d ≡ leaf_hash crate c
      → (d ≡ c) ⊎ Collision crate
  unfolding leaf_hash
  leaf_inj c d x y e = elim (hashed crate (d.0 ++ d.1) (c.0 ++ c.1) e) [
    | inl same ↦
        let (first, second) = append_inj d.0 c.0 d.1 c.1 (y ∙ sym x) same in
        inl (ground (arith, first, second))
    | inr c ↦ inr c
  ]

  -- A path that leads from a node to the root is that of the leaf at the place, or there is a
  -- collision.
  pub climb_sound :
      {n : ℕ} (t : Tree n) (place : ℕ) (d : Bytes × Bytes) (path : List Bytes)
      → IsSized t
      → length d.0 ≡ 64
      → length d.1 ≡ 64
      → IsPath path
      → climb crate place 0 (leaf_hash crate d) path ≡ some (root crate t)
      → ((length path ≡ n) × (d ≡ leaf_at t place)) ⊎ Collision crate
  unfolding leaf_at root
  climb_sound (leaf c) place d path sz x y p e =
      elim (climb_cases place (leaf_hash crate d) (leaf_hash crate c) path (length-leaf_hash d) p
        e) [
          | inr last ↦ inr (
              leaf_join place (length last.before) last.reached last.sibling c last.reached_16
                last.sibling_16 sz.0 sz.1 last.joined)
          | inl (empty, same) ↦ elim (leaf_inj c d sz.0 x same) [
            | inl here ↦ inl (rw empty refl, here)
            | inr c ↦ inr c
          ]
        ]
  climb_sound (node {n} l r) place d path sz x y p e =
      elim (climb_cases place (leaf_hash crate d) (hash_h128 crate (root crate l) (root crate r))
        path (length-leaf_hash d) p e) [
          | inl (empty, same) ↦ inr (join_leaf _ _ d (length-root l) (length-root r) x y (sym same))
          | inr last ↦
              elim (last_round l r place (length last.before) last.reached last.sibling
                last.reached_16 last.sibling_16 last.joined) [
                  | inr c ↦ inr c
                  | inl up ↦ elim (Bool-cases ((place / 2 ^ length last.before) % 2 == 0)) [
                    | inl even ↦
                        elim (climb_sound l place d last.before sz.0 x y last.is_path
                          (last.climbed ∙ ap some (ground (arith, up, even)))) [
                            | inr c ↦ inr c
                            | inl (at, here) ↦ inl (
                              ap length last.splits
                                  ∙ omega (
                                    arith,
                                    length-append {0} last.before (last.sibling ∷ []),
                                    at,
                                  ),
                              here ∙ ground (arith, at, even),
                            )
                          ]
                    | inr odd ↦
                        elim (climb_sound r place d last.before sz.1 x y last.is_path
                          (last.climbed ∙ ap some (ground (arith, up, odd)))) [
                            | inr c ↦ inr c
                            | inl (at, here) ↦ inl (
                              ap length last.splits
                                  ∙ omega (
                                    arith,
                                    length-append {0} last.before (last.sibling ∷ []),
                                    at,
                                  ),
                              here ∙ ground (arith, at, odd),
                            )
                          ]
                  ]
                ]
        ]

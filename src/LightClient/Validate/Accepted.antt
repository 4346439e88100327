-- ===== src/LightClient/Validate/Accepted.antt =====
-- What a header that passes `validate_header_to_import` satisfies, and that the checks write nothing.
use polkadot_ethereum.Ethereum.{Header}
use polkadot_ethereum.Ethereum.Hashing
use polkadot_ethereum.LightClient.{Config, LightClient, StoredHeader, EthashProofData, ancestry}
use polkadot_ethereum.Prelude.{
  true, some, ◌%◌, ◌+◌, ◌≡◌, In, arith, none, ◌<◌, List, inr, Option-cases, inl, ◌==◌, find-In, ◌≢◌,
  subst, ==_iff,
}
use polkadot_ethereum.Frame.{ok}
use polkadot_ethereum.LightClient.Validate.{
  check_difficulty, check_pow, validate_header_to_import, check_basic, check_child, ancestor_at,
}
use polkadot_ethereum.Prelude.Map.{lookup, contains_key}
use polkadot_ethereum.Prelude.Word.{u64_mod}
use polkadot_ethereum.Core.{asset_eq, H256}
use polkadot_ethereum.Prelude.Eq.{nat_eq, pair_eq, list_eq}

pub record Accepted (c : Config) (header : Header) (s : LightClient) : Type 0 where
  pub parent : StoredHeader
  pub is_new : lookup (Hashing.compute_hash c.codec header) s.headers ≡ none
  pub has_parent : lookup header.parent_hash s.headers ≡ some parent
  pub is_newer : s.finalized_block.number < header.number
  -- the finalized block is an ancestor of the parent, at the number that is recorded for it
  pub ancestor : Header
  pub descends : In (s.finalized_block.hash, ancestor) (ancestry header.parent_hash s)
  pub at_number : ancestor.number ≡ s.finalized_block.number
  pub next_number : c.verify_pow ≡ true → header.number ≡ (parent.header.number + 1) % u64_mod

basic_state : (header parent : Header) (s : LightClient) → (check_basic header parent s).1 ≡ s
unfolding check_basic
basic_state header parent s = ground arith

basic_number :
    (header parent : Header) (s : LightClient)
    → (check_basic header parent s).0 ≡ ok tt
    → header.number ≡ (parent.number + 1) % u64_mod
unfolding check_basic
basic_number header parent s h = ground arith

difficulty_state :
    (c : Config) (header parent : Header) (s : LightClient)
    → (check_difficulty c header parent s).1 ≡ s
unfolding check_difficulty
difficulty_state c header parent s = ground arith

pow_state :
    (c : Config) (header : Header) (proof : List EthashProofData) (s : LightClient)
    → (check_pow c header proof s).1 ≡ s
unfolding check_pow
pow_state c header proof s = ground arith

module _ (c : Config) (header : Header) (proof : List EthashProofData) (s : LightClient) where
  child_state : (parent : Header) → (check_child c header parent proof s).1 ≡ s
  unfolding check_child
  child_state parent = ground (
    arith,
    basic_state header parent s,
    difficulty_state c header parent s,
    pow_state c header proof s,
  )

  child_number :
      (parent : Header)
      → (check_child c header parent proof s).0 ≡ ok tt
      → header.number ≡ (parent.number + 1) % u64_mod
  unfolding check_child
  child_number parent h = basic_number header parent s (ground arith)

  child_pow :
      (parent : Header)
      → (check_child c header parent proof s).0 ≡ ok tt
      → (check_pow c header proof s).0 ≡ ok tt
  unfolding check_child
  child_pow parent h =
      ground (arith, basic_state header parent s, difficulty_state c header parent s)

  -- Validation writes nothing.
  pub validate_state : (validate_header_to_import c header proof s).1 ≡ s
  unfolding validate_header_to_import
  validate_state = elim (Option-cases (lookup header.parent_hash s.headers)) [
    | inl e ↦ ground arith
    | inr (stored, e) ↦ ground (arith, child_state stored.header)
  ]

  validate_parts :
      (stored : StoredHeader) (found : H256 × Header)
      → lookup header.parent_hash s.headers ≡ some stored
      → ancestor_at c header.parent_hash s.finalized_block.number s ≡ some found
      → (validate_header_to_import c header proof s).0 ≡ ok tt
      → (lookup (Hashing.compute_hash c.codec header) s.headers ≡ none)
        × (s.finalized_block.number < header.number)
        × (found.0 ≡ s.finalized_block.hash)
        × (c.verify_pow ≡ true → header.number ≡ (stored.header.number + 1) % u64_mod)
  unfolding validate_header_to_import contains_key
  validate_parts stored found e f h = ground (arith, child_number stored.header)

  no_parent_fails :
      lookup header.parent_hash s.headers ≡ none
      → (validate_header_to_import c header proof s).0 ≢ ok tt
  unfolding validate_header_to_import
  no_parent_fails e = ground arith

  no_ancestor_fails :
      ancestor_at c header.parent_hash s.finalized_block.number s ≡ none
      → (validate_header_to_import c header proof s).0 ≢ ok tt
  unfolding validate_header_to_import
  no_ancestor_fails e = elim (Option-cases (lookup header.parent_hash s.headers)) [
    | inl p ↦ ground arith
    | inr (stored, p) ↦ ground arith
  ]

  child_checked :
      (stored : StoredHeader) (found : H256 × Header)
      → lookup header.parent_hash s.headers ≡ some stored
      → ancestor_at c header.parent_hash s.finalized_block.number s ≡ some found
      → c.verify_pow ≡ true
      → (validate_header_to_import c header proof s).0 ≡ ok tt
      → (check_child c header stored.header proof s).0 ≡ ok tt
  unfolding validate_header_to_import
  child_checked stored found e f v h = ground (arith, e, f, v, h)

  pub validate_pow :
      c.verify_pow ≡ true
      → (validate_header_to_import c header proof s).0 ≡ ok tt
      → (check_pow c header proof s).0 ≡ ok tt
  validate_pow v h = elim (Option-cases (lookup header.parent_hash s.headers)) [
    | inl e ↦ absurd (no_parent_fails e h)
    | inr (stored, e) ↦
        elim (Option-cases (ancestor_at c header.parent_hash s.finalized_block.number s)) [
          | inl f ↦ absurd (no_ancestor_fails f h)
          | inr (found, f) ↦ child_pow stored.header (child_checked stored found e f v h)
        ]
  ]

  found-In :
      (found : H256 × Header)
      → ancestor_at c header.parent_hash s.finalized_block.number s ≡ some found
      → In found (ancestry header.parent_hash s)
        × ((found.1.number == s.finalized_block.number) ≡ true)
  unfolding ancestor_at
  found-In found e = find-In _ (ancestry header.parent_hash s) e

  pub validate-Accepted :
      (validate_header_to_import c header proof s).0 ≡ ok tt → Accepted c header s
  validate-Accepted h = elim (Option-cases (lookup header.parent_hash s.headers)) [
    | inl e ↦ absurd (no_parent_fails e h)
    | inr (stored, e) ↦
        elim (Option-cases (ancestor_at c header.parent_hash s.finalized_block.number s)) [
          | inl f ↦ absurd (no_ancestor_fails f h)
          | inr (found, f) ↦
              let (fresh, newer, at_hash, next) = validate_parts stored found e f h in
              let (here, number) = found-In found f in
              record {
                parent = stored;
                is_new = fresh;
                has_parent = e;
                is_newer = newer;
                ancestor = found.1;
                descends =
                    subst (λ x. In (x, found.1) (ancestry header.parent_hash s)) at_hash here;
                at_number = (==_iff found.1.number s.finalized_block.number).0 number;
                next_number = next;
              }
        ]
  ]

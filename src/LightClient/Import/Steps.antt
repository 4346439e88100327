-- ===== src/LightClient/Import/Steps.antt =====
-- The parts of an import, one lemma for each, so that the later proofs keep them shut.
use polkadot_ethereum.Core.{H256, AccountId, U256, asset_eq}
use polkadot_ethereum.Ethereum.{Header, HeaderId, header_id_beq}
use polkadot_ethereum.Ethereum.Hashing
use polkadot_ethereum.LightClient.{Config, LightClient, StoredHeader}
use polkadot_ethereum.Prelude.{
  false, ◌<◌, refl, arith, ◌⊎◌, inl, inr, Option-cases, some, ◌≡◌, Bool-cases, ltb, ◌≤◌, ◌==◌, ◌||◌,
  ◌+◌, ◌&&◌, Bool, if◌then◌else◌, subst, not, sym, true,
}
use polkadot_ethereum.LightClient.Import.{
  finalize, nth_ancestor, get_best_finalized_header, mark_finalized, track_best, clean_up,
  insert_header, import_validated_header, finalized_choice,
}
use polkadot_ethereum.LightClient.Prune.{prune_header_range}
use polkadot_ethereum.Frame.{ok, err, DispatchError, Result}
use polkadot_ethereum.Frame.Outcome.{Result-cases}
use polkadot_ethereum.Prelude.Map.{lookup, insert}
use polkadot_ethereum.Prelude.Word.{u256_mod}
use polkadot_ethereum.Prelude.Eq.{nat_eq, pair_eq, list_eq}

-- The header as it is stored.
abbrev pub fresh_header : AccountId → Header → U256 → StoredHeader
fresh_header sender header total_difficulty = record {
  submitter = some sender;
  header = header;
  total_difficulty = total_difficulty;
  finalized = false;
}

-- How finality may move: not at all, or to a younger header that is `descendants_until_finalized`
-- steps from the new best one.
abbrev pub FinalityMove : Config → H256 → LightClient → HeaderId → Type 0
FinalityMove c best s next =
    (next ≡ s.finalized_block)
    ⊎ ((header : Header) × (nth_ancestor c.descendants_until_finalized best s
          ≡ some (next.hash, header))
        × (s.finalized_block.number < header.number)
        × (next.number ≡ header.number))

module _ (c : Config) (best : HeaderId) (td : U256) (s : LightClient) where
  abbrev with_best : LightClient
  with_best = record s { best_block = (best, td) }

  same_ancestor :
      nth_ancestor c.descendants_until_finalized best.hash with_best
      ≡ nth_ancestor c.descendants_until_finalized best.hash s
  unfolding nth_ancestor
  same_ancestor = refl

  finality-finalize : FinalityMove c best.hash s (finalize c best with_best).1.finalized_block
  unfolding finalize get_best_finalized_header mark_finalized
  finality-finalize = elim (Option-cases (nth_ancestor c.descendants_until_finalized best.hash s)) [
    | inl e ↦ ground (arith, same_ancestor)
    | inr ((a, header), e) ↦ elim (Bool-cases (ltb s.finalized_block.number header.number)) [
      | inl lt ↦
          inr (header, ground (arith, same_ancestor), ground arith, ground (arith, same_ancestor))
      | inr ge ↦ inl (ground (arith, same_ancestor))
    ]
  ]

  clean_up_finalized :
      (f : HeaderId) (t : LightClient) → (clean_up c f t).1.finalized_block ≡ t.finalized_block
  unfolding clean_up prune_header_range
  clean_up_finalized f t = refl

  track_finalized :
      (track_best c best td s).1.finalized_block ≡ (finalize c best with_best).1.finalized_block
  unfolding track_best
  track_finalized = elim (Result-cases (finalize c best with_best).0) [
    | inl (f, e) ↦ ground (arith, clean_up_finalized f (finalize c best with_best).1)
    | inr (x, e) ↦ ground arith
  ]

  pub finality-track_best : FinalityMove c best.hash s (track_best c best td s).1.finalized_block
  finality-track_best = subst (FinalityMove c best.hash s) (sym track_finalized) finality-finalize

  best-finalize : (finalize c best with_best).1.best_block ≡ (best, td)
  unfolding finalize get_best_finalized_header mark_finalized
  best-finalize = ground arith

  best-clean_up : (f : HeaderId) (t : LightClient) → (clean_up c f t).1.best_block ≡ t.best_block
  unfolding clean_up prune_header_range
  best-clean_up f t = refl

  pub best-track_best : (track_best c best td s).1.best_block ≡ (best, td)
  unfolding track_best
  best-track_best = elim (Result-cases (finalize c best with_best).0) [
    | inl (f, e) ↦ ground (arith, best-finalize, best-clean_up f (finalize c best with_best).1)
    | inr (x, e) ↦ ground (arith, best-finalize)
  ]

-- Finalizing marks at most one stored header.
abbrev pub Marked : LightClient → LightClient → Type 0
Marked t u =
    (u.headers ≡ t.headers)
    ⊎ ((k : H256) × (old : StoredHeader) × (lookup k t.headers ≡ some old)
        × (u.headers ≡ insert k (record old { finalized = true }) t.headers))

module _ (c : Config) (best : HeaderId) (t : LightClient) where
  abbrev choice : Result DispatchError HeaderId
  choice =
      finalized_choice t.finalized_block (nth_ancestor c.descendants_until_finalized best.hash t)

  pub headers-finalize : Marked t (finalize c best t).1
  unfolding finalize get_best_finalized_header mark_finalized
  headers-finalize = elim (Result-cases choice) [
    | inr (x, e) ↦ inl (ground (arith, e))
    | inl (next, e) ↦ elim (Bool-cases (header_id_beq next t.finalized_block)) [
      | inl same ↦ inl (ground (arith, e, same))
      | inr moved ↦ elim (Option-cases (lookup next.hash t.headers)) [
        | inl gone ↦ inl (ground (arith, e, moved, gone))
        | inr (old, found) ↦ inr (next.hash, old, found, ground (arith, e, moved, found))
      ]
    ]
  ]

-- What an import does past its first checks: the header is stored, and tracked as the best where it
-- has the highest total difficulty.
module _ (c : Config) (sender : AccountId) (header : Header) (s : LightClient) where
  abbrev new_hash : H256
  new_hash = Hashing.compute_hash c.codec header

  abbrev pub with_header : U256 → LightClient
  with_header td = insert_header new_hash (fresh_header sender header td) s

  abbrev pub becomes_best : U256 → Bool
  becomes_best td = ltb s.best_block.1 td || (not c.verify_pow && td == 0)

  abbrev pub new_id : HeaderId
  new_id = record { number = header.number; hash = new_hash }

  pub import_runs :
      {parent : StoredHeader}
      → lookup header.parent_hash s.headers ≡ some parent
      → parent.total_difficulty + header.difficulty < u256_mod
      → import_validated_header c sender header s ≡ (
          if becomes_best (parent.total_difficulty + header.difficulty)
          then track_best c new_id
              (parent.total_difficulty + header.difficulty)
              (with_header (parent.total_difficulty + header.difficulty))
          else (ok tt, with_header (parent.total_difficulty + header.difficulty)))
  unfolding import_validated_header insert_header
  import_runs e lt = ground arith

  pub import_overflows :
      {parent : StoredHeader}
      → lookup header.parent_hash s.headers ≡ some parent
      → u256_mod ≤ parent.total_difficulty + header.difficulty
      → import_validated_header c sender header s
        ≡ (err (DispatchError.other "Total difficulty overflow"), s)
  unfolding import_validated_header
  import_overflows e ge = ground arith

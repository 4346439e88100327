-- ===== src/LightClient/Import.antt =====
-- `import_validated_header`, `get_best_finalized_header` and the call `import_header`.
pub mod Steps
pub mod Cases
pub mod Chained
pub mod Finality
pub mod Safety
pub mod Best
pub mod Failure
use polkadot_ethereum.Frame.{
  ◌>>=◌, ◌>>◌, DispatchError, ok, Origin, Call, Dispatch, Result, err, DispatchError, ensure_signed,
  gets, modify, pure, unknown, ok_or, missing_parent_header,
}
use polkadot_ethereum.Core.{H256, U256, AccountId, asset_eq}
use polkadot_ethereum.Ethereum.{Header, HeaderId, header_id_beq}
use polkadot_ethereum.Ethereum.Hashing
use polkadot_ethereum.LightClient.{
  Config, LightClient, StoredHeader, EthashProofData, ancestry, finalized_headers_to_keep,
  headers_to_prune_in_single_import,
}
use polkadot_ethereum.LightClient.Prune.{prune_header_range}
use polkadot_ethereum.LightClient.Validate.{fail, validate_header_to_import}
use polkadot_ethereum.Prelude.{
  ℕ, false, List, true, none, ◌||◌, some, Option, ◌∷◌, ◌&&◌, ◌-◌, ◌++◌, ◌==◌, if◌then◌else◌, [],
  get_elem?, ltb, not,
}
use polkadot_ethereum.Prelude.Map.{insert, lookup}
use polkadot_ethereum.Prelude.Eq.{nat_eq, pair_eq, list_eq}
use polkadot_ethereum.Prelude.Word.{checked_add, u256_mod}

-- `Headers::insert` and the index by number
unfoldable pub insert_header : H256 → StoredHeader → LightClient → LightClient
insert_header hash stored s = record s {
  headers = insert hash stored s.headers;
  headers_by_number =
      insert stored.header.number
        (elim (lookup stored.header.number s.headers_by_number) [
          | none ↦ hash ∷ []
          | some hashes ↦ hashes ++ hash ∷ []
        ])
        s.headers_by_number;
}

-- The first ancestor that is `required` steps away.
unfoldable pub nth_ancestor : ℕ → H256 → LightClient → Option (H256 × Header)
unfolding ancestry
nth_ancestor required hash s = get_elem? (ancestry hash s) required

-- `Headers::mutate(hash, ..)` that sets `finalized`
unfoldable pub mark_finalized : HeaderId → Dispatch LightClient
mark_finalized id s = elim (lookup id.hash s.headers) [
  | none ↦ (err (fail unknown), s)
  | some stored ↦
      (ok tt, record s { headers = insert id.hash (record stored { finalized = true }) s.headers })
]

abbrev pub finalized_choice : HeaderId → Option (H256 × Header) → Result DispatchError HeaderId
finalized_choice current none = ok current
finalized_choice current (some (hash, header)) =
    if ltb current.number header.number
    then ok (record { number = header.number; hash = hash })
    else if hash == current.hash
    then ok current
    else err (fail unknown)

module _ (c : Config) where
  unfoldable pub get_best_finalized_header : HeaderId → HeaderId → Call LightClient HeaderId
  get_best_finalized_header best current s =
      (finalized_choice current (nth_ancestor c.descendants_until_finalized best.hash s), s)

  unfoldable pub finalize : HeaderId → Call LightClient HeaderId
  finalize best = do
    current ← gets (λ s. s.finalized_block)
    next ← get_best_finalized_header best current
    if header_id_beq next current
        then pure tt
        else (do modify (λ s. record s { finalized_block = next }); mark_finalized next)
    pure next

  -- `BlocksToPrune` is written also where it does not change, which comes to the same.
  unfoldable pub clean_up : HeaderId → Dispatch LightClient
  clean_up finalized s =
      let (range, s') =
        prune_header_range s.blocks_to_prune headers_to_prune_in_single_import
          (finalized.number - finalized_headers_to_keep) s in
      (ok tt, record s' { blocks_to_prune = range })

  -- The new chain of highest difficulty: finalize what it buries, then prune.
  unfoldable pub track_best : HeaderId → U256 → Dispatch LightClient
  track_best best total_difficulty = do
    modify (λ s. record s { best_block = (best, total_difficulty) })
    finalized ← finalize best
    clean_up finalized

  unfoldable pub import_validated_header : AccountId → Header → Dispatch LightClient
  import_validated_header sender header = do
    let hash = Hashing.compute_hash c.codec header
    found ← gets (λ s. lookup header.parent_hash s.headers)
    parent ← ok_or found (fail missing_parent_header)
    total_difficulty ←
        ok_or (checked_add u256_mod parent.total_difficulty header.difficulty)
          (DispatchError.other "Total difficulty overflow")
    modify (
        insert_header hash (record {
          submitter = some sender;
          header = header;
          total_difficulty = total_difficulty;
          finalized = false;
        }))
    (_, highest_difficulty) ← gets (λ s. s.best_block)
    if ltb highest_difficulty total_difficulty || (not c.verify_pow && total_difficulty == 0)
        then track_best (record { number = header.number; hash = hash }) total_difficulty
        else pure tt

  unfoldable pub import_header : Origin → Header → List EthashProofData → Dispatch LightClient
  import_header origin header proof = do
    sender ← ensure_signed origin
    validate_header_to_import c header proof
    import_validated_header sender header

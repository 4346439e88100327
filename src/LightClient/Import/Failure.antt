-- ===== src/LightClient/Import/Failure.antt =====
-- When tracking a new best block fails.
use polkadot_ethereum.Prelude.{
  Bool-cases, inl, get_elem?-In, inr, Option-cases, ◌≤◌, ◌≢◌, arith, some, ◌≡◌, ltb, length, refl,
  ◌↔◌,
}
use polkadot_ethereum.Ethereum.{Header, HeaderId}
use polkadot_ethereum.Frame.{err, DispatchError, unknown, ok}
use polkadot_ethereum.Core.{H256, asset_eq, U256}
use polkadot_ethereum.LightClient.{Config, StoredHeader, LightClient, ancestry, ancestry_from}
use polkadot_ethereum.LightClient.Import.{
  nth_ancestor, finalize, get_best_finalized_header, mark_finalized, track_best, clean_up,
}
use polkadot_ethereum.Prelude.Map.{lookup}
use polkadot_ethereum.LightClient.Validate.{fail}
use polkadot_ethereum.LightClient.Ancestry.{in_ancestry_sound}
use polkadot_ethereum.Prelude.Eq.{nat_eq, pair_eq, list_eq}
use polkadot_ethereum.Frame.Outcome.{Result-cases}
use polkadot_ethereum.LightClient.Import.Steps.{best-track_best}
use polkadot_ethereum.LightClient.Prune.{prune_header_range}

-- The walk from the best block has, `descendants_until_finalized` steps away, a header that is not
-- younger than the finalized block and is not that block.
pub record Conflict (c : Config) (best : HeaderId) (s : LightClient) : Type 0 where
  pub hash : H256
  pub header : Header
  pub buried : nth_ancestor c.descendants_until_finalized best.hash s ≡ some (hash, header)
  pub not_younger : header.number ≤ s.finalized_block.number
  pub differs : hash ≢ s.finalized_block.hash

module _ (c : Config) (best : HeaderId) (s : LightClient) where
  -- What the walk meets is stored.
  buried_known :
      (hash : H256) (header : Header)
      → nth_ancestor c.descendants_until_finalized best.hash s ≡ some (hash, header)
      → (x : StoredHeader) × (lookup hash s.headers ≡ some x)
  unfolding nth_ancestor ancestry
  buried_known hash header e =
      let (_, (x, ex, _)) = in_ancestry_sound (length s.headers) best.hash s.headers hash header (
        get_elem?-In (ancestry_from (length s.headers) best.hash s.headers)
          c.descendants_until_finalized e) in
      (x, ex)

  finalize-Conflict : Conflict c best s → (finalize c best s).0 ≡ err (fail unknown)
  unfolding finalize get_best_finalized_header
  finalize-Conflict k = ground (arith, k.buried, k.not_younger, k.differs)

  finalize_fails : (e : DispatchError) → (finalize c best s).0 ≡ err e → Conflict c best s
  unfolding finalize get_best_finalized_header mark_finalized
  finalize_fails e h =
      elim (Option-cases (nth_ancestor c.descendants_until_finalized best.hash s)) [
        | inl none_left ↦ ground (arith, none_left)
        | inr ((hash, header), found) ↦
            let (x, known) = buried_known hash header found in
            elim (Bool-cases (ltb s.finalized_block.number header.number)) [
              | inl lt ↦ ground (arith, found, known, lt)
              | inr ge ↦ record {
                hash = hash;
                header = header;
                buried = found;
                not_younger = ground arith;
                differs = λ same. ground (arith, found, ge, same);
              }
            ]
      ]

module _ (c : Config) (best : HeaderId) (td : U256) (s : LightClient) where
  abbrev moved : LightClient
  moved = record s { best_block = (best, td) }

  Conflict-moved : Conflict c best s → Conflict c best moved
  unfolding nth_ancestor
  Conflict-moved k = record {
    hash = k.hash;
    header = k.header;
    buried = k.buried;
    not_younger = k.not_younger;
    differs = k.differs;
  }

  moved-Conflict : Conflict c best moved → Conflict c best s
  unfolding nth_ancestor
  moved-Conflict k = record {
    hash = k.hash;
    header = k.header;
    buried = k.buried;
    not_younger = k.not_younger;
    differs = k.differs;
  }

  clean_up_ok : (f : HeaderId) (t : LightClient) → (clean_up c f t).0 ≡ ok tt
  unfolding clean_up prune_header_range
  clean_up_ok f t = refl

  track-Conflict : Conflict c best s → (track_best c best td s).0 ≡ err (fail unknown)
  unfolding track_best
  track-Conflict k = ground (arith, finalize-Conflict c best moved (Conflict-moved k))

  track_fails : (e : DispatchError) → (track_best c best td s).0 ≡ err e → Conflict c best s
  unfolding track_best
  track_fails e h = elim (Result-cases (finalize c best moved).0) [
    | inl (f, fine) ↦ ground (arith, fine, clean_up_ok f (finalize c best moved).1)
    | inr (x, failed) ↦ moved-Conflict (finalize_fails c best moved x failed)
  ]

-- Tracking a new best block fails exactly when, `descendants_until_finalized` steps down from it,
-- there is a header that is not younger than the finalized block and is not that block. The error is
-- then `Unknown`. The best block has been replaced already, and stays replaced, whatever the result.
pub track_best-fails_iff :
    (c : Config) (best : HeaderId) (td : U256) (s : LightClient)
    → (((track_best c best td s).0 ≡ err (fail unknown)) ↔ Conflict c best s)
      × ((e : DispatchError)
          → (track_best c best td s).0 ≡ err e
          → (track_best c best td s).0 ≡ err (fail unknown))
      × ((track_best c best td s).1.best_block ≡ (best, td))
track_best-fails_iff c best td s = (
  (track_fails c best td s (fail unknown), track-Conflict c best td s),
  λ e h. track-Conflict c best td s (track_fails c best td s e h),
  best-track_best c best td s,
)

-- ===== src/LightClient/Import/Chained.antt =====
-- Numbers grow along the links between stored headers, and an import keeps it so.
use polkadot_ethereum.Core.{H256, U256, asset_eq}
use polkadot_ethereum.Ethereum.{HeaderId}
use polkadot_ethereum.LightClient.{
  Config, LightClient, StoredHeader, headers_to_prune_in_single_import, finalized_headers_to_keep,
}
use polkadot_ethereum.Prelude.{none, some, ◌≡◌, arith, ◌<◌, inl, ◌≢◌, inr, ◌-◌, subst, sym}
use polkadot_ethereum.Prelude.Map.{lookup-insert, lookup, insert}
use polkadot_ethereum.LightClient.Ancestry.{IsChained, Headers}
use polkadot_ethereum.Prelude.Eq.{nat_eq, pair_eq, list_eq}
use polkadot_ethereum.LightClient.Within.{Within, Within-mark, Within-refl, Within-trans}
use polkadot_ethereum.LightClient.Import.{track_best, finalize, clean_up}
use polkadot_ethereum.LightClient.Import.Steps.{Marked, headers-finalize}
use polkadot_ethereum.LightClient.Prune.Kept.{Within-prune_header_range}
use polkadot_ethereum.Frame.Outcome.{Result-cases}
use polkadot_ethereum.Frame.{DispatchError, err, ok}

-- No stored header names `hash` as its parent. For the hash of a header that is not stored yet this
-- could fail only if someone had foreseen the hash.
pub record IsUnforeseen (hash : H256) (m : Headers) : Type 0 where
  pub no_child : (h : H256) (x : StoredHeader) → lookup h m ≡ some x → x.header.parent_hash ≢ hash

pub IsChained-insert :
    (hash : H256) (new parent : StoredHeader) (m : Headers)
    → IsChained m
    → IsUnforeseen hash m
    → lookup hash m ≡ none
    → lookup new.header.parent_hash m ≡ some parent
    → parent.header.number < new.header.number
    → IsChained (insert hash new m)
IsChained-insert hash new parent m c u absent known lt = record {
  linked = λ h x y e f. ground (
    arith,
    lookup-insert h hash new m,
    lookup-insert x.header.parent_hash hash new m,
    c.linked h x y,
    u.no_child h x,
  );
}

Within-Marked : (t u : LightClient) → Marked t u → Within u.headers t.headers
Within-Marked t u (inl same) = subst (λ m. Within m t.headers) (sym same) (Within-refl t.headers)
Within-Marked t u (inr (k, old, found, marked)) =
    subst (λ m. Within m t.headers) (sym marked) (Within-mark k t.headers old found)

Within-clean_up :
    (c : Config) (f : HeaderId) (t : LightClient) → Within (clean_up c f t).1.headers t.headers
unfolding clean_up
Within-clean_up c f t =
    Within-prune_header_range t.blocks_to_prune headers_to_prune_in_single_import
      (f.number - finalized_headers_to_keep) t

module _ (c : Config) (best : HeaderId) (td : U256) (s : LightClient) where
  abbrev middle : LightClient
  middle = (finalize c best (record s { best_block = (best, td) })).1

  Within-middle : Within middle.headers s.headers
  Within-middle =
      Within-Marked (record s { best_block = (best, td) }) middle
        (headers-finalize c best (record s { best_block = (best, td) }))

  track_ok :
      (f : HeaderId)
      → (finalize c best (record s { best_block = (best, td) })).0 ≡ ok f
      → (track_best c best td s).1 ≡ (clean_up c f middle).1
  unfolding track_best
  track_ok f e = ground (arith, e)

  track_err :
      (x : DispatchError)
      → (finalize c best (record s { best_block = (best, td) })).0 ≡ err x
      → (track_best c best td s).1 ≡ middle
  unfolding track_best
  track_err x e = ground (arith, e)

  pub Within-track_best : Within (track_best c best td s).1.headers s.headers
  Within-track_best =
      elim (Result-cases (finalize c best (record s { best_block = (best, td) })).0) [
        | inl (f, e) ↦
            subst (λ (t : LightClient). Within t.headers s.headers) (sym (track_ok f e))
              (Within-trans (Within-clean_up c f middle) Within-middle)
        | inr (x, e) ↦
            subst (λ (t : LightClient). Within t.headers s.headers) (sym (track_err x e))
              Within-middle
      ]

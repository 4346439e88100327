-- ===== src/LightClient/Prune.antt =====
-- `prune_header_range`: removal of old headers, a limited number for each call.
pub mod Kept
pub mod Bounds
use polkadot_ethereum.Core.{H256, asset_eq}
use polkadot_ethereum.LightClient.{StoredHeader, PruningRange, LightClient}
use polkadot_ethereum.Prelude.{
  ◌+◌, ℕ, suc, List, none, some, Option, ◌∷◌, zero, ◌-◌, ◌==◌, if◌then◌else◌, [], ltb, length, drop,
}
use polkadot_ethereum.Prelude.Map.{Map, erase, lookup, insert}
use polkadot_ethereum.Prelude.Eq.{nat_eq, pair_eq, list_eq}

-- The storage that pruning writes, with the local variables of the outer loop.
pub record Pruning : Type 0 where
  pub blocks_pruned : ℕ
  pub oldest_unpruned : ℕ
  pub headers : Map H256 StoredHeader
  pub by_number : Map ℕ (List H256)

-- The inner loop over the hashes at one number: `remaining`, `blocks_pruned` and the headers.
unfoldable pub remove_hashes :
    ℕ → List H256 → ℕ → ℕ → Map H256 StoredHeader → ℕ × ℕ × Map H256 StoredHeader
remove_hashes max_prune [] remaining pruned m = (remaining, pruned, m)
remove_hashes max_prune (hash ∷ hashes) remaining pruned m =
    let rest = remove_hashes max_prune hashes (remaining - 1) (pruned + 1) (erase hash m) in
    if (pruned + 1) == max_prune then (remaining - 1, pruned + 1, erase hash m) else rest

-- The hashes found at `number` are taken out; those that were not reached are put back.
unfoldable pub prune_number : ℕ → ℕ → Option (List H256) → Pruning → Pruning
prune_number max_prune number none p = record p { oldest_unpruned = number + 1 }
prune_number max_prune number (some hashes) p =
    let taken = erase number p.by_number in
    let (remaining, pruned, headers) =
      remove_hashes max_prune hashes (length hashes) p.blocks_pruned p.headers in
    if ltb 0 remaining
    then record p {
      blocks_pruned = pruned;
      headers = headers;
      by_number = insert number (drop (length hashes - remaining) hashes) taken;
    }
    else record p {
      blocks_pruned = pruned;
      oldest_unpruned = number + 1;
      headers = headers;
      by_number = taken;
    }

-- `for number in start..end`, the count being `end - start`.
unfoldable pub prune_numbers : ℕ → ℕ → ℕ → Pruning → Pruning
prune_numbers max_prune zero number p = p
prune_numbers max_prune (suc n) number p =
    let rest =
      prune_numbers max_prune n (number + 1)
        (prune_number max_prune number (lookup number p.by_number) p) in
    if p.blocks_pruned == max_prune then p else rest

abbrev pub new_keep : PruningRange → ℕ → ℕ
new_keep range prune_end =
    if ltb range.oldest_block_to_keep prune_end then prune_end else range.oldest_block_to_keep

unfoldable pub prune_header_range : PruningRange → ℕ → ℕ → LightClient → PruningRange × LightClient
prune_header_range range max_prune prune_end s =
    let start = range.oldest_unpruned_block in
    let end = new_keep range prune_end in
    let p = prune_numbers max_prune (end - start) start (record {
      blocks_pruned = 0;
      oldest_unpruned = start;
      headers = s.headers;
      by_number = s.headers_by_number;
    }) in
    (
      record { oldest_unpruned_block = p.oldest_unpruned; oldest_block_to_keep = end },
      record s { headers = p.headers; headers_by_number = p.by_number },
    )

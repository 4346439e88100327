-- ===== src/LightClient/Prune/Kept.antt =====
-- Pruning only removes: every header that is left was there before, unchanged.
use polkadot_ethereum.Core.{H256, asset_eq}
use polkadot_ethereum.LightClient.{LightClient, PruningRange}
use polkadot_ethereum.LightClient.Within.{Within, Within-trans, Within-refl, Within-erase}
use polkadot_ethereum.Prelude.{
  zero, Option, suc, ◌-◌, ◌+◌, some, List, ℕ, inr, Bool-cases, inl, none, ◌∷◌, ◌==◌, [], length,
  ltb,
}
use polkadot_ethereum.LightClient.Prune.{
  Pruning, remove_hashes, prune_header_range, prune_number, prune_numbers, new_keep,
}
use polkadot_ethereum.LightClient.Ancestry.{Headers}
use polkadot_ethereum.Prelude.Map.{lookup, erase}
use polkadot_ethereum.Prelude.Eq.{nat_eq, pair_eq, list_eq}

pub Within-remove_hashes :
    (max_prune : ℕ) (hashes : List H256) (remaining pruned : ℕ) (m : Headers)
    → Within (remove_hashes max_prune hashes remaining pruned m).2 m
unfolding remove_hashes
Within-remove_hashes max_prune [] remaining pruned m = Within-refl m
Within-remove_hashes max_prune (hash ∷ hashes) remaining pruned m =
    elim (Bool-cases ((pruned + 1) == max_prune)) [
      | inl stop ↦ rw stop (Within-erase hash m)
      | inr go ↦ rw go (
          Within-trans
            (Within-remove_hashes max_prune hashes (remaining - 1) (pruned + 1) (erase hash m))
            (Within-erase hash m))
    ]

Within-prune_number :
    (max_prune number : ℕ) (found : Option (List H256)) (p : Pruning)
    → Within (prune_number max_prune number found p).headers p.headers
unfolding prune_number
Within-prune_number max_prune number none p = Within-refl p.headers
Within-prune_number max_prune number (some hashes) p =
    let r = remove_hashes max_prune hashes (length hashes) p.blocks_pruned p.headers in
    elim (Bool-cases (ltb 0 r.0)) [
      | inl e ↦
          rw e (Within-remove_hashes max_prune hashes (length hashes) p.blocks_pruned p.headers)
      | inr e ↦
          rw e (Within-remove_hashes max_prune hashes (length hashes) p.blocks_pruned p.headers)
    ]

Within-prune_numbers :
    (max_prune n number : ℕ) (p : Pruning)
    → Within (prune_numbers max_prune n number p).headers p.headers
unfolding prune_numbers
Within-prune_numbers max_prune zero number p = Within-refl p.headers
Within-prune_numbers max_prune (suc n) number p = elim (Bool-cases (p.blocks_pruned == max_prune)) [
  | inl e ↦ rw e (Within-refl p.headers)
  | inr e ↦ rw e (
      Within-trans
        (Within-prune_numbers max_prune n (number + 1)
          (prune_number max_prune number (lookup number p.by_number) p))
        (Within-prune_number max_prune number (lookup number p.by_number) p))
]

pub Within-prune_header_range :
    (range : PruningRange) (max_prune prune_end : ℕ) (s : LightClient)
    → Within (prune_header_range range max_prune prune_end s).1.headers s.headers
unfolding prune_header_range
Within-prune_header_range range max_prune prune_end s =
    Within-prune_numbers max_prune (new_keep range prune_end - range.oldest_unpruned_block)
      range.oldest_unpruned_block
      (record {
        blocks_pruned = 0;
        oldest_unpruned = range.oldest_unpruned_block;
        headers = s.headers;
        by_number = s.headers_by_number;
      })

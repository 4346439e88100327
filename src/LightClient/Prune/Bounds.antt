-- ===== src/LightClient/Prune/Bounds.antt =====
-- How far pruning goes, and what it leaves in the index by number.
use polkadot_ethereum.Prelude.{◌+◌, List, ◌⊎◌, ℕ, none, ◌<◌, ◌≡◌, ◌≤◌, ◌≢◌, length, zero, some, suc}
use polkadot_ethereum.LightClient.{LightClient}
use polkadot_ethereum.LightClient.Prune.{Pruning}
use polkadot_ethereum.Prelude.Map.{Map, lookup}
use polkadot_ethereum.Core.{H256, asset_eq}
use polkadot_ethereum.Prelude.Eq.{nat_eq, pair_eq, list_eq}

-- How many hashes the index lists at a number, and at `n` numbers from it on.
abbrev pub at_number : ℕ → Map ℕ (List H256) → ℕ
at_number number m = elim (lookup number m) [ none ↦ 0 | some hashes ↦ length hashes ]

abbrev pub listed : ℕ → ℕ → Map ℕ (List H256) → ℕ
listed zero number m = 0
listed (suc n) number m = at_number number m + listed n (number + 1) m

-- One number: it is done, and out of the index, or the limit is reached and it is where it was.
pub record OneNumber (max_prune number : ℕ) (p q : Pruning) : Type 0 where
  pub limit : q.blocks_pruned ≤ max_prune
  pub others : (k : ℕ) → k ≢ number → lookup k q.by_number ≡ lookup k p.by_number
  pub counted :
      at_number number p.by_number + p.blocks_pruned
      ≡ at_number number q.by_number + q.blocks_pruned
  pub done_or_full :
      ((q.oldest_unpruned ≡ number + 1) × (lookup number q.by_number ≡ none))
      ⊎ ((q.oldest_unpruned ≡ p.oldest_unpruned) × (q.blocks_pruned ≡ max_prune))

-- The `n` numbers from `start`, when `first` is the oldest that is not done.
-- `done` and `blocks` count the hashes removed before and after.
pub record Pruned (max_prune n start : ℕ) (before after : Map ℕ (List H256)) (done first blocks : ℕ)
    : Type 0 where
  pub limit : blocks ≤ max_prune
  pub counted : listed n start before + done ≡ listed n start after + blocks
  pub from_start : start ≤ first
  pub up_to_end : first ≤ start + n
  pub emptied : (k : ℕ) → start ≤ k → k < first → lookup k after ≡ none
  pub below : (k : ℕ) → k < start → lookup k after ≡ lookup k before
  pub above : (k : ℕ) → start + n ≤ k → lookup k after ≡ lookup k before
  pub complete_or_full : (first ≡ start + n) ⊎ (blocks ≡ max_prune)

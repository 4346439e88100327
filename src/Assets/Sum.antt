-- ===== src/Assets/Sum.antt =====
-- The sum of an asset's balances, and how a write to one balance changes it.
use polkadot_ethereum.Prelude.{ℕ, ◌+◌, ◌≤◌, ◌≡◌, [], ◌∷◌, arith, if◌then◌else◌, ◌≢◌, ◌≢◌}
use polkadot_ethereum.Prelude.Eq.{pair_eq, nat_eq}
use polkadot_ethereum.Prelude.Map.{Map, lookup, insert}
use polkadot_ethereum.Core.{AssetId, AccountId, U256, asset_eq, asset_beq, asset_beq_iff}
use polkadot_ethereum.Assets.{get_or_zero}

unfoldable pub sum_of : AssetId → Map (AssetId × AccountId) U256 → ℕ
sum_of a [] = 0
sum_of a ((k, v) ∷ m) = (if asset_beq k.0 a then v else 0) + sum_of a m

pub sum-insert :
    (a b : AssetId) (w : AccountId) (v : U256) (m : Map (AssetId × AccountId) U256)
    → sum_of a (insert (b, w) v m) + (if asset_beq b a then get_or_zero (lookup (b, w) m) else 0)
      ≡ sum_of a m + (if asset_beq b a then v else 0)
unfolding sum_of insert lookup
sum-insert a b w v [] = ground arith
sum-insert a b w v ((k, u) ∷ m) =
    ground
      (arith, sum-insert a b w v m, asset_beq_iff k.0 b, asset_beq_iff k.0 a, asset_beq_iff b a)

pub balance-le-sum :
    (a : AssetId) (w : AccountId) (m : Map (AssetId × AccountId) U256)
    → get_or_zero (lookup (a, w) m) ≤ sum_of a m
unfolding sum_of lookup
balance-le-sum a w [] = omega arith
balance-le-sum a w ((k, u) ∷ m) = ground (arith, balance-le-sum a w m)

-- Two accounts of one asset together hold no more than all accounts do.
pub two_balances-le-sum :
    (a : AssetId) (x y : AccountId) (m : Map (AssetId × AccountId) U256)
    → x ≢ y
    → get_or_zero (lookup (a, x) m) + get_or_zero (lookup (a, y) m) ≤ sum_of a m
unfolding sum_of lookup
two_balances-le-sum a x y [] h = omega arith
two_balances-le-sum a x y ((k, u) ∷ m) h =
    ground (arith, two_balances-le-sum a x y m h, balance-le-sum a x m, balance-le-sum a y m)

-- ===== src/Assets/Apart.antt =====
-- What deposits and withdrawals leave alone.
use polkadot_ethereum.Prelude.{◌≡◌, arith, ◌≢◌, ◌+◌}
use polkadot_ethereum.Core.{AssetId, U256, AccountId, asset_beq_iff, asset_eq}
use polkadot_ethereum.Assets.{Assets, deposit, balance, total_issuance, withdraw}
use polkadot_ethereum.Prelude.Map.{lookup-insert}
use polkadot_ethereum.Prelude.Eq.{nat_eq, pair_eq, list_eq}
use polkadot_ethereum.Frame.{err, DispatchError}

pub deposit_apart :
    (a b : AssetId) (w z : AccountId) (v : U256) (s : Assets)
    → a ≢ b
    → (balance b z (deposit a w v s).1 ≡ balance b z s)
      × (total_issuance b (deposit a w v s).1 ≡ total_issuance b s)
unfolding deposit balance total_issuance
deposit_apart a b w z v s ne = ground (
  arith,
  asset_beq_iff a b,
  lookup-insert (b, z) (a, w) (balance a w s + v) s.balances,
  lookup-insert b a (total_issuance a s + v) s.total_issuances,
)

-- A withdrawal that fails leaves the assets as they are.
pub withdraw_failed :
    (a : AssetId) (who : AccountId) (v : U256) (s : Assets) (e : DispatchError)
    → (withdraw a who v s).0 ≡ err e
    → (withdraw a who v s).1 ≡ s
unfolding withdraw
withdraw_failed a who v s e h = ground (arith, h)

-- ===== src/Assets/Exact.antt =====
-- A deposit that fits.
use polkadot_ethereum.Prelude.{◌≡◌, ◌+◌, ◌<◌, ◌==◌, arith, inl, inr, Bool-cases}
use polkadot_ethereum.Prelude.Eq.{nat_eq, pair_eq}
use polkadot_ethereum.Prelude.Map.{lookup-insert}
use polkadot_ethereum.Prelude.Word.{u256_mod}
use polkadot_ethereum.Core.{AssetId, AccountId, U256, asset_eq}
use polkadot_ethereum.Frame.{ok}
use polkadot_ethereum.Assets.{Assets, deposit, balance, total_issuance}
use polkadot_ethereum.Assets.Sound.{IsSound, balance-le-issuance}

pub deposit_fits :
    (a : AssetId) (who : AccountId) (v : U256) (s : Assets)
    → IsSound s
    → total_issuance a s + v < u256_mod
    → ((deposit a who v s).0 ≡ ok tt)
      × (balance a who (deposit a who v s).1 ≡ balance a who s + v)
      × (total_issuance a (deposit a who v s).1 ≡ total_issuance a s + v)
unfolding deposit balance total_issuance
deposit_fits a who v s h small =
    let held = balance-le-issuance a who s h in
    elim (Bool-cases (v == 0)) [
      | inl none_given ↦ ground (arith, none_given)
      | inr given ↦ ground (
        arith,
        given,
        held,
        small,
        lookup-insert (a, who) (a, who) (balance a who s + v) s.balances,
        lookup-insert a a (total_issuance a s + v) s.total_issuances,
      )
    ]

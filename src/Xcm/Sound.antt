-- ===== src/Xcm/Sound.antt =====
-- What XCM does to the assets.
use polkadot_ethereum.Xcm.{
  Transactor, XcmError, MultiAsset, deposit_asset, withdraw_asset, arguments,
}
use polkadot_ethereum.Prelude.{◌≡◌, inl, refl, arith, inr}
use polkadot_ethereum.Assets.Sound.{IsSound, operations-IsSound}
use polkadot_ethereum.Assets.{Assets, withdraw}
use polkadot_ethereum.Frame.Outcome.{Result-cases}
use polkadot_ethereum.Frame.{err}
use polkadot_ethereum.Assets.Apart.{withdraw_failed}

-- Whatever asset and location an XCM message names, a deposit or a withdrawal by it, successful or
-- not, keeps the total issuance of every asset equal to the sum of its balances; and a withdrawal that fails
-- changes nothing.
pub transact-IsSound :
    {Location : Type 0} (t : Transactor Location) (asset : MultiAsset) (location : Location)
    (s : Assets)
    → IsSound s
    → IsSound (deposit_asset t asset location s).1
      × IsSound (withdraw_asset t asset location s).1
      × ((e : XcmError)
          → (withdraw_asset t asset location s).0 ≡ err e
          → (withdraw_asset t asset location s).1 ≡ s)
unfolding deposit_asset withdraw_asset
transact-IsSound t asset location s h = elim (Result-cases (arguments t asset location)) [
  | inr (e, bad) ↦ rw (deposit_asset, withdraw_asset, bad) (h, h, λ x f. refl)
  | inl ((a, amount, who), fine) ↦
      let (d, w, _) = operations-IsSound a who who amount in
      rw (deposit_asset, withdraw_asset, fine)
        (
          d.at s h,
          w.at s h,
          λ x f. elim (Result-cases (withdraw a who amount s).0) [
            | inl (u, done) ↦ ground (arith, f, done)
            | inr (e, failed) ↦ withdraw_failed a who amount s e failed
          ],
        )
]

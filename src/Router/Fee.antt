-- ===== src/Router/Fee.antt =====
-- The fee of the incentivized channel is paid in the ether of the assets pallet.
use polkadot_ethereum.Channels.Incentivized.Outbound as IncentivizedOutbound
use polkadot_ethereum.Channels.Basic.Outbound as BasicOutbound
use polkadot_ethereum.Core.{
  Bytes, ChannelId, AssetId, ChannelId, AccountId, H160, U256, ChannelId, AssetId,
}
use polkadot_ethereum.Channels.Incentivized.Outbound.Submit.{FeeIsAtomic, incentivized_submit_iff}
use polkadot_ethereum.Frame.{err, Dispatch, DispatchError, Part, zoom}
use polkadot_ethereum.Prelude.{◌∙◌, ◌≡◌, subst, sym, ap}
use polkadot_ethereum.Assets.{Assets, withdraw}
use polkadot_ethereum.Router.{route}
use polkadot_ethereum.Assets.Calls.{adaptor}
use polkadot_ethereum.Channels.Basic.Outbound.Submit.{submit_iff}
use polkadot_ethereum.Assets.Apart.{withdraw_failed}

-- `FeeCurrency` of the runtimes: `SingleAssetAdaptor<Runtime, Ether>`.
abbrev pub ether_fee : {S : Type 0} → Part S Assets → AccountId → U256 → Dispatch S
ether_fee part who amount = zoom part ((adaptor AssetId.eth).withdraw_from who amount)

module _ {S : Type 0} (assets : Part S Assets) (c : IncentivizedOutbound.Config S)
    (pays : c.withdraw_fee ≡ ether_fee assets)
    (apart : (a : Assets) (s : S) → c.outbound.get (assets.put a s) ≡ c.outbound.get s) where
  -- The assets pallet gives the incentivized channel the currency that it relies on.
  pub ether-FeeIsAtomic : FeeIsAtomic c
  ether-FeeIsAtomic = record {
    unchanged = λ who amount s e.
        subst
          (λ (w : AccountId → U256 → Dispatch S).
            (w who amount s).0 ≡ err e → (w who amount s).1 ≡ s)
          (sym pays)
          (λ h.
            ap (λ a. assets.put a s) (withdraw_failed AssetId.eth who amount (assets.get s) e h)
            ∙ assets.put_get s);
    apart = λ who amount s.
        subst
          (λ (w : AccountId → U256 → Dispatch S).
            c.outbound.get (w who amount s).1 ≡ c.outbound.get s)
          (sym pays) (apart (withdraw AssetId.eth who amount (assets.get s)).1 s);
  }

-- Where fees are paid in the ether of the assets pallet, whose storage is not that of the channel, a
-- message that either channel refuses changes nothing: no nonce, no queue, no fee.
pub route_refused :
    {S : Type 0} (assets : Part S Assets) (part : Part S BasicOutbound.Outbound)
    (basic : BasicOutbound.Config) (incentivized : IncentivizedOutbound.Config S)
    → incentivized.withdraw_fee ≡ ether_fee assets
    → ((a : Assets) (s : S)
        → incentivized.outbound.get (assets.put a s) ≡ incentivized.outbound.get s)
    → (channel_id : ChannelId) (who : AccountId) (target : H160) (payload : Bytes) (s : S)
    → (e : DispatchError)
    → (route part basic incentivized channel_id who target payload s).0 ≡ err e
    → (route part basic incentivized channel_id who target payload s).1 ≡ s
unfolding route
route_refused assets part basic incentivized pays apart ChannelId.basic who target payload s e h =
    let (_, _, same) = submit_iff basic who target payload (part.get s) in
    ap (λ o. part.put o s) (same e h) ∙ part.put_get s
route_refused assets part basic incentivized pays apart ChannelId.incentivized who target payload s
      e h =
    let (_, _, same) =
      incentivized_submit_iff incentivized who target payload s
        (ether-FeeIsAtomic assets incentivized pays apart) in
    same e h

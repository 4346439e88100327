-- ===== src/Runtime/Sent.antt =====
-- What the outbound channels keep of the chain (Kept).
use polkadot_ethereum.Prelude.{
  refl, ap, inl, inr, arith, ◌≡◌, ◌⊎◌, ◌∙◌, Bool-cases, subst, sym, ltb, leb, length, ◌+◌,
}
use polkadot_ethereum.Prelude.Eq.{nat_eq, pair_eq, list_eq}
use polkadot_ethereum.Prelude.Word.{u64_mod, u128_mod}
use polkadot_ethereum.Frame.Outcome.{Result-cases}
use polkadot_ethereum.Core.{AccountId, AssetId, Bytes, ChannelId, H160, asset_eq}
use polkadot_ethereum.Assets.{withdraw}
use polkadot_ethereum.Assets.Sound.{IsSound}
use polkadot_ethereum.Nft.Owners.{IsIndexed}
use polkadot_ethereum.Channels.Basic.Outbound as BasicOutbound
use polkadot_ethereum.Channels.Incentivized.Outbound as IncentivizedOutbound
use polkadot_ethereum.Channels.Incentivized.Outbound.Submit.{FeeIsAtomic}
use polkadot_ethereum.Channels.Incentivized.Outbound.Order.{submit-IsOutbound}
use polkadot_ethereum.Channels.Basic.Outbound.Order as BasicOrder
use polkadot_ethereum.Router.Fee.{ether-FeeIsAtomic}
use polkadot_ethereum.Router.{route}
use polkadot_ethereum.Runtime.{Constants, Chain, assets_part}
use polkadot_ethereum.Runtime.Calls.{External}
use polkadot_ethereum.Runtime.Run.{
  basic_outbound_config, outbound_router, incentivized_outbound_config,
}
use polkadot_ethereum.Runtime.Kept.{Kept, same-IsRegistered, withdrawn}

-- The state after the withdrawal of the fee of a message.
abbrev charge : {B : Type 0} → AccountId → Chain B → Chain B
charge who s = record s {
  assets = (withdraw AssetId.eth who s.incentivized_outbound.fee s.assets).1;
}

-- What the incentivized channel leaves of a state, its queue and nonce apart.
abbrev Taken : {B : Type 0} → Chain B → Chain B → Type 0
Taken s t =
    (t.assets ≡ s.assets)
    × (t.nft ≡ s.nft)
    × (t.incentivized_outbound.fee ≡ s.incentivized_outbound.fee)
    × (t.basic_outbound ≡ s.basic_outbound)
    × (t.tokens_by_erc721_id ≡ s.tokens_by_erc721_id)

module _ {B O : Type 0} (k : Constants) (x : External B O) where
  -- The fee of a message is all that the incentivized channel takes.
  submit-Taken :
      (who : AccountId) (target : H160) (payload : Bytes) (s : Chain B)
      → let r =
          IncentivizedOutbound.submit (incentivized_outbound_config k x) who target payload s in
        Taken s r.1 ⊎ Taken (charge who s) r.1
  unfolding IncentivizedOutbound.submit
  submit-Taken who target payload s =
      let queue = s.incentivized_outbound.message_queue in
      elim (Bool-cases (ltb (length queue) 20)) [
        | inr full ↦ inl (ground (arith, full))
        | inl room ↦ elim (Bool-cases (leb (length payload) 256)) [
          | inr large ↦ inl (ground (arith, room, large))
          | inl small ↦ elim (Bool-cases (ltb (s.incentivized_outbound.nonce + 1) u64_mod)) [
            | inr last ↦ inl (ground (arith, room, small, last))
            | inl next ↦
                elim (Result-cases
                  (withdraw AssetId.eth who s.incentivized_outbound.fee s.assets).0) [
                    | inl (u, e) ↦ inr (ground (arith, room, small, next, e))
                    | inr (bad, e) ↦ inr (ground (arith, room, small, next, e))
                  ]
          ]
        ]
      ]

  principal_same :
      (who : AccountId) (target : H160) (payload : Bytes) (o : BasicOutbound.Outbound)
      → (BasicOutbound.submit (basic_outbound_config k x) who target payload o).1.principal
        ≡ o.principal
  unfolding BasicOutbound.submit
  principal_same who target payload o = ground arith

  -- A fee that cannot be charged changes nothing.
  fee-IsAtomic : FeeIsAtomic (incentivized_outbound_config k x)
  fee-IsAtomic = ether-FeeIsAtomic assets_part (incentivized_outbound_config k x) refl (λ a s. refl)

  sent-Kept :
      {start : Chain B} (who : AccountId) (target : H160) (payload : Bytes) (s u : Chain B)
      → let r =
          IncentivizedOutbound.submit (incentivized_outbound_config k x) who target payload s in
        Kept k x start s → Kept k x start u → Taken u r.1 → Kept k x start r.1
  sent-Kept who target payload s u h g (assets, nft, charged, basic, ids) = record {
    sound = subst IsSound (sym assets) g.sound;
    indexed = subst (IsIndexed u128_mod) (sym nft) g.indexed;
    basic = subst (BasicOrder.IsOutbound (basic_outbound_config k x) 0) (sym basic) g.basic;
    incentivized =
        submit-IsOutbound (incentivized_outbound_config k x) 0 who target payload s fee-IsAtomic
          h.incentivized;
    charged = charged ∙ g.charged;
    trusted = ap (λ (o : BasicOutbound.Outbound). o.principal) basic ∙ g.trusted;
    registered = λ key r.
        same-IsRegistered key u
          (IncentivizedOutbound.submit (incentivized_outbound_config k x) who target payload s).1
          ids nft (g.registered key r);
  }

  pub routed :
      {start : Chain B} (channel_id : ChannelId) (who : AccountId) (target : H160) (payload : Bytes)
      (s : Chain B)
      → Kept k x start s
      → Kept k x start ((outbound_router k x).submit channel_id who target payload s).1
  unfolding route
  routed ChannelId.basic who target payload s h = record {
    sound = h.sound;
    indexed = h.indexed;
    basic =
        BasicOrder.step-IsOutbound (basic_outbound_config k x) 0
          (BasicOrder.submits who target payload) s.basic_outbound h.basic;
    incentivized = h.incentivized;
    charged = h.charged;
    trusted = principal_same who target payload s.basic_outbound ∙ h.trusted;
    registered = h.registered;
  }
  routed ChannelId.incentivized who target payload s h = elim (submit-Taken who target payload s) [
    | inl same ↦ sent-Kept who target payload s s h h same
    | inr paid ↦
        sent-Kept who target payload s (charge who s) h
          (withdrawn AssetId.eth who s.incentivized_outbound.fee s h) paid
  ]

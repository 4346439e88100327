-- ===== src/Runtime/Kept.antt =====
-- What every call keeps of the chain.
use polkadot_ethereum.Prelude.{ap, ◌≡◌, ◌∙◌, subst, sym}
use polkadot_ethereum.Prelude.Eq.{nat_eq, pair_eq, list_eq}
use polkadot_ethereum.Prelude.Word.{u128_mod}
use polkadot_ethereum.Core.{AccountId, AssetId, H160, U256, asset_eq}
use polkadot_ethereum.Assets.{deposit, withdraw}
use polkadot_ethereum.Assets.Sound.{IsSound, operations-IsSound}
use polkadot_ethereum.Nft.Owners.{IsIndexed}
use polkadot_ethereum.Channels.Basic.Outbound as BasicOutbound
use polkadot_ethereum.Channels.Incentivized.Outbound as IncentivizedOutbound
use polkadot_ethereum.Channels.Incentivized.Outbound.Order as IncentivizedOrder
use polkadot_ethereum.Channels.Incentivized.Outbound.Order.{submit-IsOutbound}
use polkadot_ethereum.Channels.Basic.Outbound.Order as BasicOrder
use polkadot_ethereum.Nft.Registry.{IsRegistered}
use polkadot_ethereum.Apps.Erc721.{TokensByErc721Id}
use polkadot_ethereum.Nft.{Nft}
use polkadot_ethereum.Assets.{Assets}
use polkadot_ethereum.Runtime.{Constants, Chain}
use polkadot_ethereum.Runtime.Calls.{External}
use polkadot_ethereum.Runtime.Run.{basic_outbound_config, incentivized_outbound_config}

-- What holds on a chain that began at `start`: the issuance of every asset is the sum of its balances,
-- the index of owners lists the tokens, the messages of the outbound channels are in order and within
-- the limits, their fee and principal are those at the start, and the application of ERC721 tokens
-- knows the one NFT of each token that was known at the start, or had none.
pub record Kept {B O : Type 0} (k : Constants) (x : External B O) (start s : Chain B) : Type 0 where
  pub sound : IsSound s.assets
  pub indexed : IsIndexed u128_mod s.nft
  pub basic : BasicOrder.IsOutbound (basic_outbound_config k x) 0 s.basic_outbound
  pub incentivized :
      IncentivizedOrder.IsOutbound (incentivized_outbound_config k x) 0 s.incentivized_outbound
  pub charged : s.incentivized_outbound.fee ≡ start.incentivized_outbound.fee
  pub trusted : s.basic_outbound.principal ≡ start.basic_outbound.principal
  pub registered :
      (key : H160 × U256)
      → IsRegistered key start.tokens_by_erc721_id start.nft
      → IsRegistered key s.tokens_by_erc721_id s.nft

-- Two states agree on all that this is about.
abbrev pub Alike : {B : Type 0} → Chain B → Chain B → Type 0
Alike s t =
    (t.assets ≡ s.assets)
    × (t.nft ≡ s.nft)
    × (t.incentivized_outbound ≡ s.incentivized_outbound)
    × (t.basic_outbound ≡ s.basic_outbound)
    × (t.tokens_by_erc721_id ≡ s.tokens_by_erc721_id)

pub same-IsRegistered :
    {B : Type 0} (key : H160 × U256) (s t : Chain B)
    → t.tokens_by_erc721_id ≡ s.tokens_by_erc721_id
    → t.nft ≡ s.nft
    → IsRegistered key s.tokens_by_erc721_id s.nft
    → IsRegistered key t.tokens_by_erc721_id t.nft
same-IsRegistered key s t ids nft r =
    subst (λ (m : TokensByErc721Id). IsRegistered key m t.nft) (sym ids)
      (subst (IsRegistered key s.tokens_by_erc721_id) (sym nft) r)

module _ {B O : Type 0} {k : Constants} {x : External B O} {start : Chain B} where
  pub same-Kept : (s t : Chain B) → Alike s t → Kept k x start s → Kept k x start t
  same-Kept s t (assets, nft, incentivized, basic, ids) h = record {
    sound = subst IsSound (sym assets) h.sound;
    indexed = subst (IsIndexed u128_mod) (sym nft) h.indexed;
    basic = subst (BasicOrder.IsOutbound (basic_outbound_config k x) 0) (sym basic) h.basic;
    incentivized =
        subst (IncentivizedOrder.IsOutbound (incentivized_outbound_config k x) 0) (sym incentivized)
          h.incentivized;
    charged = ap (λ (o : IncentivizedOutbound.Outbound). o.fee) incentivized ∙ h.charged;
    trusted = ap (λ (o : BasicOutbound.Outbound). o.principal) basic ∙ h.trusted;
    registered = λ key r. same-IsRegistered key s t ids nft (h.registered key r);
  }

  pub assets-Kept :
      (assets : Assets) (s : Chain B)
      → IsSound assets
      → Kept k x start s
      → Kept k x start (record s { assets = assets })
  assets-Kept assets s sound h = record {
    sound = sound;
    indexed = h.indexed;
    basic = h.basic;
    incentivized = h.incentivized;
    charged = h.charged;
    trusted = h.trusted;
    registered = h.registered;
  }

  pub nft-Kept :
      (nft : Nft) (ids : TokensByErc721Id) (s : Chain B)
      → IsIndexed u128_mod nft
      → ((key : H160 × U256)
          → IsRegistered key s.tokens_by_erc721_id s.nft
          → IsRegistered key ids nft)
      → Kept k x start s
      → Kept k x start (record s { nft = nft; tokens_by_erc721_id = ids })
  nft-Kept nft ids s indexed registered h = record {
    sound = h.sound;
    indexed = indexed;
    basic = h.basic;
    incentivized = h.incentivized;
    charged = h.charged;
    trusted = h.trusted;
    registered = λ key r. registered key (h.registered key r);
  }

  pub withdrawn :
      (a : AssetId) (who : AccountId) (amount : U256) (s : Chain B)
      → Kept k x start s
      → Kept k x start (record s { assets = (withdraw a who amount s.assets).1 })
  withdrawn a who amount s h =
      assets-Kept _ s ((operations-IsSound a who who amount).1.at s.assets h.sound) h

  pub deposited :
      (a : AssetId) (who : AccountId) (amount : U256) (s : Chain B)
      → Kept k x start s
      → Kept k x start (record s { assets = (deposit a who amount s.assets).1 })
  deposited a who amount s h =
      assets-Kept _ s ((operations-IsSound a who who amount).0.at s.assets h.sound) h

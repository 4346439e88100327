-- ===== src/Runtime/Relay.antt =====
-- From a log of the ETH application on Ethereum to a balance on the chain.
use polkadot_ethereum.Prelude.{
  ℕ, some, ◌≡◌, ◌+◌, ◌<◌, ◌%◌, ◌==◌, false, ◌++◌, ◌∷◌, [], none, refl, arith, subst, sym, ◌∙◌, ap,
}
use polkadot_ethereum.Prelude.Word.{u64_mod, u256_mod}
use polkadot_ethereum.Frame.{Origin, DispatchError, InboundError, Result, ok, err}
use polkadot_ethereum.Core.{
  AccountId, ChannelId, AssetId, Bytes, H160, Message, MessageId, U256, asset_eq,
}
use polkadot_ethereum.Assets.{balance, deposit, total_issuance}
use polkadot_ethereum.Assets.Exact.{deposit_fits}
use polkadot_ethereum.Assets.Sound.{IsSound}
use polkadot_ethereum.Apps.Eth.Exact.{mint_complete}
use polkadot_ethereum.Channels.Basic.Inbound as BasicInbound
use polkadot_ethereum.Channels.Basic.Inbound.Cases.{Delivers, submit-Delivers}
use polkadot_ethereum.Dispatch as DispatchPallet
use polkadot_ethereum.Dispatch.{message_dispatched}
use polkadot_ethereum.LightClient.{LightClient}
use polkadot_ethereum.LightClient.Validate.{verify}
use polkadot_ethereum.Runtime.{Constants, Chain, assets_part, eth_app_part}
use polkadot_ethereum.Runtime.Calls.{External, eth_mint, basic_inbound_submit}
use polkadot_ethereum.Runtime.Run.{
  verifier, light_client_config, run, run_with, execute, deliver, app_at, basic_inbound_config,
}

-- The chain once ether is minted for an account by the given message.
abbrev minted : {B : Type 0} → MessageId → AccountId → U256 → Chain B → Chain B
minted id who amount s = record s {
  assets = (deposit AssetId.eth who amount s.assets).1;
  dispatch_events = s.dispatch_events ++ message_dispatched id none ∷ [];
}

module _ {B O : Type 0} (k : Constants) (x : External B O) where
  mint_run :
      (sender : H160) (recipient : ℕ) (who : AccountId) (amount : U256) (s : Chain B)
      → x.lookup_account recipient ≡ some who
      → (deposit AssetId.eth who amount s.assets).0 ≡ ok tt
      → run k x 0 (eth_mint sender recipient amount) (Origin.ethereum s.eth_app) s
        ≡ (ok tt, record s { assets = (deposit AssetId.eth who amount s.assets).1 })
  unfolding run run_with
  mint_run sender recipient who amount s known fine =
      mint_complete (app_at k x eth_app_part) assets_part s (Origin.ethereum s.eth_app) sender
        recipient amount _
        (record { by_peer = refl; who = who; looked_up = known; deposited = fine; result = refl })

  deliver_mint :
      (id : MessageId) (payload : Bytes) (sender : H160) (recipient : ℕ) (who : AccountId)
      (amount : U256) (s : Chain B)
      → x.decode_call payload ≡ some (eth_mint sender recipient amount)
      → x.lookup_account recipient ≡ some who
      → (deposit AssetId.eth who amount s.assets).0 ≡ ok tt
      → (deliver k x).dispatch s.eth_app id payload s ≡ minted id who amount s
  unfolding DispatchPallet.dispatch
  deliver_mint id payload sender recipient who amount s decoded known fine =
      ground (arith, decoded, mint_run sender recipient who amount s known fine)

  -- A message whose nonce has been taken is refused.
  replayed :
      (origin : Origin) (message : Message) (envelope : BasicInbound.Envelope) (s t : Chain B)
      → Delivers (basic_inbound_config k x (deliver k x)) origin message s envelope
      → t.light_client ≡ s.light_client
      → t.basic_inbound ≡ record s.basic_inbound { nonce = envelope.nonce }
      → (execute k x (basic_inbound_submit message) origin t).0
        ≡ err (DispatchError.basic_inbound InboundError.invalid_nonce)
  unfolding run run_with BasicInbound.submit
  replayed origin message envelope s t d same taken =
      let checked : ((verifier k x).verify message t).0 ≡ ok d.log =
        ap (λ (l : LightClient). (verify (light_client_config k x) message l).0) same
        ∙ d.verified in
      let differs : (envelope.nonce == (envelope.nonce + 1) % u64_mod) ≡ false =
        ground (arith, d.next) in
      ground (arith, d.signed_by, checked, d.decoded, d.from_channel, taken, differs)

-- Where the issuance of every asset is the sum of its balances, and a log of the ETH application is
-- proved to the light client, comes from the source channel with the next nonce, and holds the call that
-- mints an amount for a known account, its message submitted by any signer succeeds: the account holds
-- that much more ether, the issuance grows by as much (which has to fit in 256 bits), and the nonce is
-- taken. The same message cannot be submitted again.
pub submit-eth_mint :
    {B O : Type 0} (k : Constants) (x : External B O) (origin : Origin) (message : Message)
    (envelope : BasicInbound.Envelope) (sender : H160) (recipient : ℕ) (who : AccountId)
    (amount : U256) (s : Chain B)
    → IsSound s.assets
    → Delivers (basic_inbound_config k x (deliver k x)) origin message s envelope
    → envelope.source ≡ s.eth_app
    → x.decode_call envelope.payload ≡ some (eth_mint sender recipient amount)
    → x.lookup_account recipient ≡ some who
    → total_issuance AssetId.eth s.assets + amount < u256_mod
    → let r = execute k x (basic_inbound_submit message) origin s in
      (r.0 ≡ ok tt)
      × (balance AssetId.eth who r.1.assets ≡ balance AssetId.eth who s.assets + amount)
      × (total_issuance AssetId.eth r.1.assets ≡ total_issuance AssetId.eth s.assets + amount)
      × (r.1.basic_inbound.nonce ≡ (s.basic_inbound.nonce + 1) % u64_mod)
      × ((execute k x (basic_inbound_submit message) origin r.1).0
          ≡ err (DispatchError.basic_inbound InboundError.invalid_nonce))
submit-eth_mint {B = B} k x origin message envelope sender recipient who amount s sound d from
      decoded known small =
    let fits = deposit_fits AssetId.eth who amount s.assets sound small in
    let id : MessageId = record { channel_id = ChannelId.basic; nonce = envelope.nonce } in
    let noted : Chain B = record s {
      basic_inbound = record s.basic_inbound { nonce = envelope.nonce };
    } in
    let done : execute k x (basic_inbound_submit message) origin s
        ≡ (ok tt, minted id who amount noted) =
      unfold run run_with in
      submit-Delivers (basic_inbound_config k x (deliver k x)) origin message s envelope d
      ∙ ap (λ (t : Chain B). (ok tt, t))
          (ap (λ (source : H160). (deliver k x).dispatch source id envelope.payload noted) from
            ∙ deliver_mint k x id envelope.payload sender recipient who amount noted decoded known
                fits.0) in
    subst
      (λ (r : Result DispatchError (Unit {0}) × Chain B).
        (r.0 ≡ ok tt)
        × (balance AssetId.eth who r.1.assets ≡ balance AssetId.eth who s.assets + amount)
        × (total_issuance AssetId.eth r.1.assets ≡ total_issuance AssetId.eth s.assets + amount)
        × (r.1.basic_inbound.nonce ≡ (s.basic_inbound.nonce + 1) % u64_mod)
        × ((execute k x (basic_inbound_submit message) origin r.1).0
            ≡ err (DispatchError.basic_inbound InboundError.invalid_nonce)))
      (sym done)
      (
        refl,
        fits.1,
        fits.2,
        d.next,
        replayed k x origin message envelope s (minted id who amount noted) d refl refl,
      )

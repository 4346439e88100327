-- ===== src/Apps/Eth.antt =====
-- parachain/pallets/eth-app/src: wrapped ether.
pub mod Exact
use polkadot_ethereum.Frame.{
  ◌>>=◌, ◌>>◌, Origin, Part, Dispatch, transactional, ensure_signed, zoom, gets, deposit_event,
}
use polkadot_ethereum.Core.{AccountId, ChannelId, H160, AssetId, Bytes, U256}
use polkadot_ethereum.Prelude.{◌∷◌, ℕ, []}
use polkadot_ethereum.Contracts.{Token, Token, Token}
use polkadot_ethereum.Assets.{Assets, deposit, withdraw}
use polkadot_ethereum.Apps.{App, ensure_peer, lookup_or_fail}

module _ {S : Type 0} (app : App S) (assets : Part S Assets) where
  -- `OutboundPayload::encode`
  pub encode : AccountId → H160 → U256 → Bytes
  encode sender recipient amount = app.encode_function "unlock(bytes32,address,uint256)" (
      Token.fixed_bytes (app.encode_account sender)
      ∷ Token.address recipient
      ∷ Token.uint amount
      ∷ [])

  unfoldable pub burn : Origin → ChannelId → H160 → U256 → Dispatch S
  burn origin channel_id recipient amount = transactional (do
    who ← ensure_signed origin
    zoom assets (withdraw AssetId.eth who amount)
    address ← gets app.address.get
    app.router.submit channel_id who address (encode who recipient amount)
    deposit_event)

  unfoldable pub mint : Origin → H160 → ℕ → U256 → Dispatch S
  mint origin sender recipient amount = transactional (do
    ensure_peer app origin
    who ← lookup_or_fail app recipient
    zoom assets (deposit AssetId.eth who amount)
    deposit_event)

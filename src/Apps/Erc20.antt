-- ===== src/Apps/Erc20.antt =====
-- parachain/pallets/erc20-app/src: wrapped ERC20 tokens.
pub mod Apart
use polkadot_ethereum.Frame.{
  ◌>>=◌, ◌>>◌, Part, Dispatch, Origin, transactional, ensure_signed, zoom, gets, deposit_event,
}
use polkadot_ethereum.Contracts.{Token, Token, Token}
use polkadot_ethereum.Prelude.{◌∷◌, ℕ, []}
use polkadot_ethereum.Core.{AccountId, U256, ChannelId, Bytes, AssetId, H160}
use polkadot_ethereum.Assets.{Assets, deposit, withdraw}
use polkadot_ethereum.Apps.{App, ensure_peer, lookup_or_fail}

module _ {S : Type 0} (app : App S) (assets : Part S Assets) where
  -- `OutboundPayload::encode`
  pub encode : H160 → AccountId → H160 → U256 → Bytes
  encode contract sender recipient amount =
      app.encode_function "unlock(address,bytes32,address,uint256)" (
        Token.address contract
        ∷ Token.fixed_bytes (app.encode_account sender)
        ∷ Token.address recipient
        ∷ Token.uint amount
        ∷ [])

  unfoldable pub burn : Origin → ChannelId → H160 → H160 → U256 → Dispatch S
  burn origin channel_id contract recipient amount = transactional (do
    who ← ensure_signed origin
    zoom assets (withdraw (AssetId.token contract) who amount)
    address ← gets app.address.get
    app.router.submit channel_id who address (encode contract who recipient amount)
    deposit_event)

  unfoldable pub mint : Origin → H160 → H160 → ℕ → U256 → Dispatch S
  mint origin contract sender recipient amount = transactional (do
    ensure_peer app origin
    who ← lookup_or_fail app recipient
    zoom assets (deposit (AssetId.token contract) who amount)
    deposit_event)

-- ===== src/Apps/Erc721.antt =====
-- parachain/pallets/erc721-app/src: ERC721 tokens, each held here as one NFT.
use polkadot_ethereum.Frame.{
  ◌>>=◌, ◌>>◌, Erc721AppError, DispatchError, Part, Dispatch, Erc721AppError, Origin, transactional,
  ensure_signed, gets, ok_or, ensure, zoom, modify, deposit_event,
}
use polkadot_ethereum.Nft
use polkadot_ethereum.Core.{U256, AccountId, H160, ChannelId, Bytes, asset_eq}
use polkadot_ethereum.Nft.{Nft, Nft, Nft, get_token_data}
use polkadot_ethereum.Contracts.{Token, Token, Token}
use polkadot_ethereum.Prelude.Map.{Map, contains_key, insert, erase}
use polkadot_ethereum.Prelude.{ℕ, ◌∷◌, [], not}
use polkadot_ethereum.Apps.{App, ensure_peer, lookup_or_fail}
use polkadot_ethereum.Prelude.Eq.{nat_eq, pair_eq, list_eq}

-- The storage of the pallet, besides the address: the id here of a token on Ethereum.
abbrev pub TokensByErc721Id : Type 0
TokensByErc721Id = Map (H160 × U256) ℕ

module _ {S : Type 0} (app : App S) (nfts : Part S Nft) (ids : Part S TokensByErc721Id)
    (bits : ℕ) where
  -- `OutboundPayload::encode`
  pub encode : H160 → U256 → AccountId → H160 → Bytes
  encode contract token_id sender recipient =
      app.encode_function "unlock(address,uint256,bytes32,address)" (
        Token.address contract
        ∷ Token.uint token_id
        ∷ Token.fixed_bytes (app.encode_account sender)
        ∷ Token.address recipient
        ∷ [])

  unfoldable pub burn : Origin → ChannelId → ℕ → H160 → Dispatch S
  burn origin channel_id nft_id recipient = transactional (do
    who ← ensure_signed origin
    found ← gets (λ s. get_token_data nft_id (nfts.get s))
    token_data ← ok_or found (DispatchError.erc721_app Erc721AppError.token_not_found)
    let contract = token_data.properties.token_contract
    let token_id = token_data.properties.token_id
    zoom nfts (Nft.burn who nft_id)
    modify (λ s. ids.put (erase (contract, token_id) (ids.get s)) s)
    address ← gets app.address.get
    app.router.submit channel_id who address (encode contract token_id who recipient)
    deposit_event)

  unfoldable pub mint : Origin → H160 → ℕ → H160 → U256 → Bytes → Dispatch S
  mint origin sender recipient contract token_id token_uri = transactional (do
    ensure_peer app origin
    minted ← gets (λ s. contains_key (contract, token_id) (ids.get s))
    ensure (not minted) (DispatchError.erc721_app Erc721AppError.token_already_minted)
    who ← lookup_or_fail app recipient
    nft_id ←
        zoom nfts
          (Nft.mint bits who token_uri (record { token_contract = contract; token_id = token_id }))
    modify (λ s. ids.put (insert (contract, token_id) nft_id (ids.get s)) s)
    deposit_event)

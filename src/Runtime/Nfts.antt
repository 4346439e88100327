-- ===== src/Runtime/Nfts.antt =====
-- What the calls of the ERC721 application keep of the chain.
use polkadot_ethereum.Prelude.{some, none, ◌≡◌, ℕ, inl, inr, arith, Option-cases, Bool-cases, []}
use polkadot_ethereum.Prelude.Map.{erase, insert, lookup, contains_key}
use polkadot_ethereum.Prelude.Eq.{nat_eq, pair_eq}
use polkadot_ethereum.Prelude.Word.{u128_mod}
use polkadot_ethereum.Frame.{ok, Origin, signer}
use polkadot_ethereum.Frame.Outcome.{Result-cases}
use polkadot_ethereum.Core.{Erc721TokenData, Bytes, ChannelId, H160, U256, asset_eq}
use polkadot_ethereum.Nft as Nft
use polkadot_ethereum.Nft.{get_token_data, Nft, Nft, Nft}
use polkadot_ethereum.Nft.Registry.{mint-IsRegistered, burn-IsRegistered}
use polkadot_ethereum.Nft.Owners.{operations-IsIndexed}
use polkadot_ethereum.Apps.{ensure_peer_cases}
use polkadot_ethereum.Apps.Erc721 as Erc721
use polkadot_ethereum.Runtime.{
  Constants, Chain, nft_part, erc721_app_part, tokens_by_erc721_id_part,
}
use polkadot_ethereum.Runtime.Calls.{External}
use polkadot_ethereum.Runtime.Run.{app_at, outbound_router}
use polkadot_ethereum.Runtime.Kept.{Kept, nft-Kept, same-Kept}
use polkadot_ethereum.Runtime.Sent.{routed}

module _ {B O : Type 0} {start : Chain B} (k : Constants) (x : External B O) (origin : Origin)
    (s : Chain B) (h : Kept k x start s) where
  pub erc721_burn-Kept :
      (channel_id : ChannelId) (nft_id : ℕ) (recipient : H160)
      → Kept k x start
          (Erc721.burn
            (app_at k x erc721_app_part)
            nft_part
            tokens_by_erc721_id_part
            u128_mod
            origin
            channel_id
            nft_id
            recipient
            s).1
  unfolding Erc721.burn
  erc721_burn-Kept channel_id nft_id recipient = elim (Option-cases (signer origin)) [
    | inl bad ↦ same-Kept s _ (ground (arith, bad)) h
    | inr (who, by) ↦ elim (Option-cases (get_token_data nft_id s.nft)) [
      | inl bad ↦ same-Kept s _ (ground (arith, by, bad)) h
      | inr (data', found) ↦ elim (Result-cases (Nft.burn who nft_id s.nft).0) [
        | inr (e, bad) ↦ same-Kept s _ (ground (arith, by, found, bad)) h
        | inl (u, fine) ↦
            let contract = data'.properties.token_contract in
            let token_id = data'.properties.token_id in
            let t = record s {
              nft = (Nft.burn who nft_id s.nft).1;
              tokens_by_erc721_id = erase (contract, token_id) s.tokens_by_erc721_id;
            } in
            let payload =
              Erc721.encode (app_at k x erc721_app_part) nft_part tokens_by_erc721_id_part u128_mod
                contract token_id who recipient in
            let call = (outbound_router k x).submit channel_id who s.erc721_app payload t in
            let indexed =
              (operations-IsIndexed u128_mod who who nft_id [] data'.properties).1.at s.nft
                h.indexed in
            let there : lookup nft_id s.nft.tokens ≡ some data' = unfold get_token_data in found in
            let burned : (Nft.burn who nft_id s.nft).0 ≡ ok tt = ground (arith, fine) in
            let kept : Kept k x start t =
              nft-Kept (Nft.burn who nft_id s.nft).1
                (erase (contract, token_id) s.tokens_by_erc721_id) s indexed
                (λ key r.
                  burn-IsRegistered key s.tokens_by_erc721_id s.nft who nft_id data' there burned r)
                h in
            elim (Result-cases call.0) [
              | inr (e, bad) ↦ same-Kept s _ (ground (arith, by, found, fine, bad)) h
              | inl (v, sent) ↦
                  same-Kept call.1 _ (ground (arith, by, found, fine, sent))
                    (routed k x channel_id who s.erc721_app payload t kept)
            ]
      ]
    ]
  ]

  pub erc721_mint-Kept :
      (sender : H160) (recipient : ℕ) (contract : H160) (token_id : U256) (token_uri : Bytes)
      → Kept k x start
          (Erc721.mint
            (app_at k x erc721_app_part)
            nft_part
            tokens_by_erc721_id_part
            u128_mod
            origin
            sender
            recipient
            contract
            token_id
            token_uri
            s).1
  unfolding Erc721.mint
  erc721_mint-Kept sender recipient contract token_id token_uri =
      let app = app_at k x erc721_app_part in
      let properties : Erc721TokenData = record {
        token_contract = contract;
        token_id = token_id;
      } in
      elim (ensure_peer_cases app origin s) [
        | inr (bad, _) ↦ same-Kept s _ (ground (arith, bad)) h
        | inl (fine, _) ↦
            elim (Bool-cases (contains_key (contract, token_id) s.tokens_by_erc721_id)) [
              | inl bad ↦ same-Kept s _ (ground (arith, fine, bad)) h
              | inr new ↦ elim (Option-cases (x.lookup_account recipient)) [
                | inl bad ↦ same-Kept s _ (ground (arith, fine, new, bad)) h
                | inr (who, known) ↦
                    let call = Nft.mint u128_mod who token_uri properties s.nft in
                    elim (Result-cases call.0) [
                      | inr (e, bad) ↦ same-Kept s _ (ground (arith, fine, new, known, bad)) h
                      | inl (id, done) ↦
                          let ids = insert (contract, token_id) id s.tokens_by_erc721_id in
                          let t : Chain B = record s { nft = call.1; tokens_by_erc721_id = ids } in
                          let unused : lookup (contract, token_id) s.tokens_by_erc721_id ≡ none =
                            unfold contains_key in ground (arith, new) in
                          let indexed =
                            (operations-IsIndexed u128_mod who who id token_uri properties).0.at
                              s.nft h.indexed in
                          same-Kept t _ (ground (arith, fine, new, known, done)) (
                            nft-Kept call.1 ids s indexed
                              (λ key r.
                                mint-IsRegistered key s.tokens_by_erc721_id s.nft u128_mod who
                                  token_uri properties id h.indexed unused done r)
                              h)
                    ]
              ]
            ]
      ]

-- ===== src/Runtime/Apps.antt =====
-- What the calls of the ETH, ERC20 and DOT applications keep of the chain.
use polkadot_ethereum.Prelude.{ℕ, inl, inr, refl, arith, Option-cases, subst, sym}
use polkadot_ethereum.Frame.{Origin, signer, Result, DispatchError}
use polkadot_ethereum.Frame.Outcome.{Result-cases}
use polkadot_ethereum.Core.{AssetId, ChannelId, H160, U256, asset_eq}
use polkadot_ethereum.Assets.{deposit, withdraw}
use polkadot_ethereum.Apps.{ensure_peer, ensure_peer_cases}
use polkadot_ethereum.Apps.Dot as Dot
use polkadot_ethereum.Apps.Eth as Eth
use polkadot_ethereum.Apps.Eth.Exact.{burn_cases, burn_complete}
use polkadot_ethereum.Apps.Erc20 as Erc20
use polkadot_ethereum.Runtime.{
  Constants, Chain, assets_part, dot_app_part, eth_app_part, erc20_app_part,
}
use polkadot_ethereum.Runtime.Calls.{External}
use polkadot_ethereum.Runtime.Run.{app_at, native, outbound_router}
use polkadot_ethereum.Runtime.Kept.{Kept, same-Kept, withdrawn, deposited}
use polkadot_ethereum.Runtime.Sent.{routed}

module _ {B O : Type 0} {start : Chain B} (k : Constants) (x : External B O) (origin : Origin)
    (s : Chain B) (h : Kept k x start s) where
  pub eth_burn-Kept :
      (channel_id : ChannelId) (recipient : H160) (amount : U256)
      → Kept k x start
          (Eth.burn (app_at k x eth_app_part) assets_part origin channel_id recipient amount s).1
  eth_burn-Kept channel_id recipient amount =
      let app = app_at k x eth_app_part in
      elim (burn_cases app assets_part s origin channel_id recipient amount) [
        | inr (e, bad) ↦ same-Kept s _ (ground (arith, bad)) h
        | inl (t, b) ↦
            let taken = record s { assets = (withdraw AssetId.eth b.who amount s.assets).1 } in
            let kept : Kept k x start t =
              subst (λ (r : Result DispatchError (Unit {0}) × Chain B). Kept k x start r.1)
                b.submitted
                (routed k x channel_id b.who s.eth_app
                  (Eth.encode app assets_part b.who recipient amount) taken
                  (withdrawn AssetId.eth b.who amount s h)) in
            subst (λ (r : Result DispatchError (Unit {0}) × Chain B). Kept k x start r.1)
              (sym (burn_complete app assets_part s origin channel_id recipient amount t b)) kept
      ]

  pub eth_mint-Kept :
      (sender : H160) (recipient : ℕ) (amount : U256)
      → Kept k x start
          (Eth.mint (app_at k x eth_app_part) assets_part origin sender recipient amount s).1
  unfolding Eth.mint
  eth_mint-Kept sender recipient amount =
      let app = app_at k x eth_app_part in
      elim (ensure_peer_cases app origin s) [
        | inr (bad, _) ↦ same-Kept s _ (ground (arith, bad)) h
        | inl (fine, _) ↦ elim (Option-cases (x.lookup_account recipient)) [
          | inl bad ↦ same-Kept s _ (ground (arith, fine, bad)) h
          | inr (who, known) ↦ elim (Result-cases (deposit AssetId.eth who amount s.assets).0) [
            | inr (e, bad) ↦ same-Kept s _ (ground (arith, fine, known, bad)) h
            | inl (u, done) ↦
                same-Kept (record s { assets = (deposit AssetId.eth who amount s.assets).1 }) _
                  (ground (arith, fine, known, done)) (deposited AssetId.eth who amount s h)
          ]
        ]
      ]

  pub erc20_mint-Kept :
      (contract sender : H160) (recipient : ℕ) (amount : U256)
      → Kept k x start
          (Erc20.mint
            (app_at k x erc20_app_part)
            assets_part
            origin
            contract
            sender
            recipient
            amount
            s).1
  unfolding Erc20.mint
  erc20_mint-Kept contract sender recipient amount =
      let app = app_at k x erc20_app_part in
      elim (ensure_peer_cases app origin s) [
        | inr (bad, _) ↦ same-Kept s _ (ground (arith, bad)) h
        | inl (fine, _) ↦ elim (Option-cases (x.lookup_account recipient)) [
          | inl bad ↦ same-Kept s _ (ground (arith, fine, bad)) h
          | inr (who, known) ↦
              elim (Result-cases (deposit (AssetId.token contract) who amount s.assets).0) [
                | inr (e, bad) ↦ same-Kept s _ (ground (arith, fine, known, bad)) h
                | inl (u, done) ↦
                    same-Kept
                      (record s {
                        assets = (deposit (AssetId.token contract) who amount s.assets).1;
                      })
                      _ (ground (arith, fine, known, done))
                      (deposited (AssetId.token contract) who amount s h)
              ]
        ]
      ]

  pub erc20_burn-Kept :
      (channel_id : ChannelId) (contract recipient : H160) (amount : U256)
      → Kept k x start
          (Erc20.burn
            (app_at k x erc20_app_part)
            assets_part
            origin
            channel_id
            contract
            recipient
            amount
            s).1
  unfolding Erc20.burn
  erc20_burn-Kept channel_id contract recipient amount = elim (Option-cases (signer origin)) [
    | inl bad ↦ same-Kept s _ (ground (arith, bad)) h
    | inr (who, by) ↦
        elim (Result-cases (withdraw (AssetId.token contract) who amount s.assets).0) [
          | inr (e, bad) ↦ same-Kept s _ (ground (arith, by, bad)) h
          | inl (u, fine) ↦
              let t = record s {
                assets = (withdraw (AssetId.token contract) who amount s.assets).1;
              } in
              let payload =
                Erc20.encode (app_at k x erc20_app_part) assets_part contract who recipient
                  amount in
              let call = (outbound_router k x).submit channel_id who s.erc20_app payload t in
              elim (Result-cases call.0) [
                | inr (e, bad) ↦ same-Kept s _ (ground (arith, by, fine, bad)) h
                | inl (v, sent) ↦ same-Kept call.1 _ (ground (arith, by, fine, sent)) (
                    routed k x channel_id who s.erc20_app payload t
                      (withdrawn (AssetId.token contract) who amount s h))
              ]
        ]
  ]

  pub dot_lock-Kept :
      (channel_id : ChannelId) (recipient : H160) (amount : ℕ)
      → Kept k x start
          (Dot.lock (app_at k x dot_app_part) (native k x) origin channel_id recipient amount s).1
  unfolding Dot.lock
  dot_lock-Kept channel_id recipient amount = elim (Option-cases (signer origin)) [
    | inl bad ↦ same-Kept s _ (ground (arith, bad)) h
    | inr (who, by) ↦
        let paid = x.transfer_allow_death who x.dot_account amount s.frame in
        elim (Result-cases paid.0) [
          | inr (e, bad) ↦ same-Kept s _ (ground (arith, by, bad)) h
          | inl (u, fine) ↦ elim (Option-cases (Dot.wrap amount k.decimals)) [
            | inl bad ↦ same-Kept s _ (ground (arith, by, fine, bad)) h
            | inr (wrapped, given) ↦
                let t = record s { frame = paid.1 } in
                let payload =
                  Dot.encode (app_at k x dot_app_part) (native k x) who recipient wrapped in
                let call = (outbound_router k x).submit channel_id who s.dot_app payload t in
                elim (Result-cases call.0) [
                  | inr (e, bad) ↦ same-Kept s _ (ground (arith, by, fine, given, bad)) h
                  | inl (v, sent) ↦ same-Kept call.1 _ (ground (arith, by, fine, given, sent)) (
                      routed k x channel_id who s.dot_app payload t
                        (same-Kept s t (refl, refl, refl, refl, refl) h))
                ]
          ]
        ]
  ]

  pub dot_unlock-Kept :
      (sender : H160) (recipient : ℕ) (amount : U256)
      → Kept k x start
          (Dot.unlock (app_at k x dot_app_part) (native k x) origin sender recipient amount s).1
  unfolding Dot.unlock ensure_peer
  dot_unlock-Kept sender recipient amount = same-Kept s _ (ground arith) h

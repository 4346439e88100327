-- ===== src/Runtime/Ether.antt =====
-- Ether on the chain: only messages of the ETH application's contract on Ethereum reach it.
use polkadot_ethereum.Prelude.{
  ℕ, inl, inr, refl, arith, ◌≡◌, ◌≢◌, ◌∙◌, Option-cases, ap, subst, sym,
}
use polkadot_ethereum.Frame.{Origin, DispatchError, Result}
use polkadot_ethereum.Frame.Outcome.{Result-cases}
use polkadot_ethereum.Core.{AccountId, AssetId, Bytes, H160, MessageId, U256, asset_eq}
use polkadot_ethereum.Contracts.{MessageDispatch}
use polkadot_ethereum.Assets.{balance, total_issuance}
use polkadot_ethereum.Apps.{ensure_peer, ensure_peer_cases}
use polkadot_ethereum.Apps.Dot as Dot
use polkadot_ethereum.Apps.Eth as Eth
use polkadot_ethereum.Apps.Erc20 as Erc20
use polkadot_ethereum.Apps.Erc20.Apart.{mint_apart}
use polkadot_ethereum.Apps.Erc721 as Erc721
use polkadot_ethereum.Channels.Basic.Inbound as BasicInbound
use polkadot_ethereum.Channels.Incentivized.Inbound as IncentivizedInbound
use polkadot_ethereum.Dispatch as DispatchPallet
use polkadot_ethereum.Prelude.Word.{u128_mod}
use polkadot_ethereum.Runtime.{
  Constants, Chain, assets_part, nft_part, dot_app_part, eth_app_part, erc20_app_part,
  erc721_app_part, tokens_by_erc721_id_part,
}
use polkadot_ethereum.Runtime.Calls.{
  RuntimeCall, RuntimeCalls, External, basic_inbound_submit, incentivized_inbound_submit,
  incentivized_inbound_set_reward_fraction, light_client_import_header, assets_transfer, dot_lock,
  dot_unlock, eth_burn, eth_mint, erc20_burn, erc20_mint, erc721_burn, erc721_mint, frame_call,
  nested, no_calls, and_call,
}
use polkadot_ethereum.Runtime.Depth.{KeepsAccount}
use polkadot_ethereum.Runtime.Nested.{nested_given, nested_refused, all_ok, all_err}
use polkadot_ethereum.Assets.Calls.{transfer_by}
use polkadot_ethereum.Runtime.Run.{run_with, run_all, run, deliver, app_at, native}

-- The ether of every account, the issuance, and the contract that may mint are the same.
pub record SameEther {B : Type 0} (s t : Chain B) : Type 0 where
  pub app : t.eth_app ≡ s.eth_app
  pub issued : total_issuance AssetId.eth t.assets ≡ total_issuance AssetId.eth s.assets
  pub held : (who : AccountId) → balance AssetId.eth who t.assets ≡ balance AssetId.eth who s.assets

SameEther-refl : {B : Type 0} (s : Chain B) → SameEther s s
SameEther-refl s = record { app = refl; issued = refl; held = λ who. refl }

SameEther-trans : {B : Type 0} {s t u : Chain B} → SameEther s t → SameEther t u → SameEther s u
SameEther-trans p q = record {
  app = q.app ∙ p.app;
  issued = q.issued ∙ p.issued;
  held = λ who. q.held who ∙ p.held who;
}

same_assets :
    {B : Type 0} (s t : Chain B) → t.assets ≡ s.assets → t.eth_app ≡ s.eth_app → SameEther s t
same_assets s t e f = record {
  app = f;
  issued = ap (total_issuance AssetId.eth) e;
  held = λ who. ap (balance AssetId.eth who) e;
}

module _ {B O : Type 0} (k : Constants) (x : External B O) (origin : Origin) (s : Chain B) where
  unlock_same :
      (sender : H160) (recipient : ℕ) (amount : U256)
      → SameEther s
          (Dot.unlock (app_at k x dot_app_part) (native k x) origin sender recipient amount s).1
  unfolding Dot.unlock ensure_peer
  unlock_same sender recipient amount = same_assets s _ (ground arith) (ground arith)

  eth_mint_same :
      (sender : H160) (recipient : ℕ) (amount : U256)
      → origin ≢ Origin.ethereum s.eth_app
      → SameEther s
          (Eth.mint (app_at k x eth_app_part) assets_part origin sender recipient amount s).1
  unfolding Eth.mint
  eth_mint_same sender recipient amount ne =
      elim (ensure_peer_cases (app_at k x eth_app_part) origin s) [
        | inl (_, peer) ↦ absurd (ne peer)
        | inr (bad, _) ↦ same_assets s _ (ground (arith, bad)) (ground (arith, bad))
      ]

  erc20_mint_same :
      (contract sender : H160) (recipient : ℕ) (amount : U256)
      → SameEther s
          (Erc20.mint
            (app_at k x erc20_app_part)
            assets_part
            origin
            contract
            sender
            recipient
            amount
            s).1
  erc20_mint_same contract sender recipient amount = record {
    app = unfold Erc20.mint ensure_peer in ground arith;
    issued =
        (mint_apart (app_at k x erc20_app_part) assets_part origin contract sender recipient amount
          s AssetId.eth 0 (λ e. ground (arith, e))).1;
    held = λ who.
        (mint_apart (app_at k x erc20_app_part) assets_part origin contract sender recipient amount
          s AssetId.eth who (λ e. ground (arith, e))).0;
  }

  erc721_mint_same :
      (sender : H160) (recipient : ℕ) (contract : H160) (token_id : U256) (token_uri : Bytes)
      → SameEther s
          (Erc721.mint
            (app_at k x erc721_app_part)
            nft_part
            tokens_by_erc721_id_part
            u128_mod
            origin
            sender
            recipient
            contract
            token_id
            token_uri
            s).1
  unfolding Erc721.mint ensure_peer
  erc721_mint_same sender recipient contract token_id token_uri =
      same_assets s _ (ground arith) (ground arith)

module _ {B O : Type 0} (k : Constants) (x : External B O) (h : KeepsAccount x)
    (d : MessageDispatch (Chain B)) (account : H160) where
  set_reward_same :
      (fraction : ℕ) (s : Chain B)
      → SameEther s
          (run_with k x d
            (incentivized_inbound_set_reward_fraction fraction)
            (Origin.ethereum account)
            s).1
  unfolding run_with IncentivizedInbound.set_reward_fraction
  set_reward_same fraction s = same_assets s _ (ground arith) (ground arith)

  mutual
    unfolding run_with run_all BasicInbound.submit IncentivizedInbound.submit Eth.burn Erc20.burn
        Erc721.burn Dot.lock transfer_by

    account_same :
        (call : RuntimeCall O) (s : Chain B)
        → account ≢ s.eth_app
        → SameEther s (run_with k x d call (Origin.ethereum account) s).1
    account_same (basic_inbound_submit message) s ne = SameEther-refl s
    account_same (incentivized_inbound_submit message) s ne = SameEther-refl s
    account_same (incentivized_inbound_set_reward_fraction fraction) s ne =
        set_reward_same fraction s
    account_same (light_client_import_header header proof) s ne = same_assets s _ refl refl
    account_same (assets_transfer asset_id dest amount) s ne = SameEther-refl s
    account_same (dot_lock channel_id recipient amount) s ne = SameEther-refl s
    account_same (dot_unlock sender recipient amount) s ne =
        unlock_same k x (Origin.ethereum account) s sender recipient amount
    account_same (eth_burn channel_id recipient amount) s ne = SameEther-refl s
    account_same (eth_mint sender recipient amount) s ne =
        eth_mint_same k x (Origin.ethereum account) s sender recipient amount
          (λ e. ne (ground (arith, e)))
    account_same (erc20_burn channel_id contract recipient amount) s ne = SameEther-refl s
    account_same (erc20_mint contract sender recipient amount) s ne =
        erc20_mint_same k x (Origin.ethereum account) s contract sender recipient amount
    account_same (erc721_burn channel_id nft_id recipient) s ne = SameEther-refl s
    account_same (erc721_mint sender recipient contract token_id token_uri) s ne =
        erc721_mint_same k x (Origin.ethereum account) s sender recipient contract token_id
          token_uri
    account_same (frame_call o) s ne = same_assets s _ refl refl
    account_same (nested o calls) s ne =
        elim (Option-cases (x.origin_of_nested o (Origin.ethereum account) s.frame)) [
          | inl bad ↦
              subst (λ (r : Result DispatchError (Unit {0}) × Chain B). SameEther s r.1)
                (sym (nested_refused k x d (Origin.ethereum account) s o calls bad))
                (SameEther-refl s)
          | inr (inner, given) ↦
              elim (nested_given k x d (Origin.ethereum account) s o calls inner given) [
                | inl back ↦ subst (SameEther s) (sym back) (SameEther-refl s)
                | inr on ↦ subst (SameEther s) (sym on) (
                    subst (λ (origin : Origin). SameEther s (run_all k x d calls origin s).1)
                      (sym (h.keeps o account s.frame inner given)) (all_same calls s ne))
              ]
        ]

    all_same :
        (calls : RuntimeCalls O) (s : Chain B)
        → account ≢ s.eth_app
        → SameEther s (run_all k x d calls (Origin.ethereum account) s).1
    all_same no_calls s ne = SameEther-refl s
    all_same (and_call call calls) s ne =
        let first = account_same call s ne in
        elim (Result-cases (run_with k x d call (Origin.ethereum account) s).0) [
          | inl (u, fine) ↦
              let rest =
                all_same calls (run_with k x d call (Origin.ethereum account) s).1
                  (λ e. ne (e ∙ first.app)) in
              subst (λ (r : Result DispatchError (Unit {0}) × Chain B). SameEther s r.1)
                (sym (all_ok k x d (Origin.ethereum account) s call calls u fine))
                (SameEther-trans first rest)
          | inr (bad, failed) ↦
              subst (λ (r : Result DispatchError (Unit {0}) × Chain B). SameEther s r.1)
                (sym (all_err k x d (Origin.ethereum account) s call calls bad failed)) first
        ]

-- Where a call of FRAME that runs others for an Ethereum account gives them the origin of that account,
-- a message from Ethereum whose source is not the contract of the ETH application changes neither the
-- ether of any account nor its issuance nor that contract, whatever call its payload holds.
pub deliver-SameEther :
    {B O : Type 0} (k : Constants) (x : External B O) (source : H160) (id : MessageId)
    (payload : Bytes) (s : Chain B)
    → KeepsAccount x
    → source ≢ s.eth_app
    → SameEther s ((deliver k x).dispatch source id payload s)
unfolding DispatchPallet.dispatch run
deliver-SameEther k x source id payload s h ne = elim (Option-cases (x.decode_call payload)) [
  | inl bad ↦ same_assets s _ (ground (arith, bad)) (ground (arith, bad))
  | inr (call, good) ↦
      let run_one = run k x 0 call (Origin.ethereum source) s in
      let all : SameEther s run_one.1 =
        account_same k x h (record { dispatch = λ source id payload s. s }) source call s ne in
      SameEther-trans all (same_assets run_one.1 _ (ground (arith, good)) (ground (arith, good)))
]

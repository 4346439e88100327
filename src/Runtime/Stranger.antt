-- ===== src/Runtime/Stranger.antt =====
-- Messages of contracts on Ethereum that are not the peers of the applications.
use polkadot_ethereum.Prelude.{inl, inr, refl, arith, ◌≡◌, ◌≢◌, ◌∙◌, Option-cases, ap, subst, sym}
use polkadot_ethereum.Frame.{Origin, Result, DispatchError}
use polkadot_ethereum.Frame.Outcome.{Result-cases}
use polkadot_ethereum.Core.{Bytes, H160, MessageId, asset_eq}
use polkadot_ethereum.Contracts.{MessageDispatch}
use polkadot_ethereum.Apps.Dot as Dot
use polkadot_ethereum.Apps.Eth as Eth
use polkadot_ethereum.Apps.Erc20 as Erc20
use polkadot_ethereum.Apps.Erc721 as Erc721
use polkadot_ethereum.Assets.Calls.{transfer_by}
use polkadot_ethereum.LightClient.Import.{import_header}
use polkadot_ethereum.Channels.Basic.Inbound as BasicInbound
use polkadot_ethereum.Channels.Incentivized.Inbound as IncentivizedInbound
use polkadot_ethereum.Dispatch as DispatchPallet
use polkadot_ethereum.Runtime.{Constants, Chain}
use polkadot_ethereum.Runtime.Calls.{
  RuntimeCall, RuntimeCalls, External, basic_inbound_submit, incentivized_inbound_submit,
  incentivized_inbound_set_reward_fraction, light_client_import_header, assets_transfer, dot_lock,
  dot_unlock, eth_burn, eth_mint, erc20_burn, erc20_mint, erc721_burn, erc721_mint, frame_call,
  nested, no_calls, and_call,
}
use polkadot_ethereum.Runtime.Depth.{KeepsAccount}
use polkadot_ethereum.Runtime.Refused.{
  IsCouncil, reward_refused, unlock_refused, eth_refused, erc20_refused, erc721_refused,
}
use polkadot_ethereum.Runtime.Nested.{nested_given, nested_refused, all_ok, all_err}
use polkadot_ethereum.Runtime.Run.{run_with, run_all, run, deliver}

-- An account that is none of the contracts that the applications take messages from.
pub record IsStranger {B : Type 0} (account : H160) (s : Chain B) : Type 0 where
  pub not_dot : account ≢ s.dot_app
  pub not_eth : account ≢ s.eth_app
  pub not_erc20 : account ≢ s.erc20_app
  pub not_erc721 : account ≢ s.erc721_app

-- All storage but that of FRAME and the events of the dispatch pallet is the same.
abbrev pub Untouched : {B : Type 0} → Chain B → Chain B → Type 0
Untouched s t = t ≡ record s { frame = t.frame; dispatch_events = t.dispatch_events }

module _ {B : Type 0} where
  still : (s t : Chain B) → t ≡ s → Untouched s t
  still s t e = subst (Untouched s) (sym e) refl

  Untouched-trans : (s t u : Chain B) → Untouched s t → Untouched t u → Untouched s u
  Untouched-trans s t u p q =
      q ∙ ap (λ (c : Chain B). record c { frame = u.frame; dispatch_events = u.dispatch_events }) p

  stays-IsStranger :
      (account : H160) (s t : Chain B) → Untouched s t → IsStranger account s → IsStranger account t
  stays-IsStranger account s t p h = record {
    not_dot = λ e. h.not_dot (e ∙ ap (λ (c : Chain B). c.dot_app) p);
    not_eth = λ e. h.not_eth (e ∙ ap (λ (c : Chain B). c.eth_app) p);
    not_erc20 = λ e. h.not_erc20 (e ∙ ap (λ (c : Chain B). c.erc20_app) p);
    not_erc721 = λ e. h.not_erc721 (e ∙ ap (λ (c : Chain B). c.erc721_app) p);
  }

module _ {B O : Type 0} (k : Constants) (x : External B O) (h : KeepsAccount x)
    (council : IsCouncil x) (d : MessageDispatch (Chain B)) (account : H160) where
  mutual
    unfolding run_with run_all BasicInbound.submit IncentivizedInbound.submit Eth.burn Erc20.burn
        Erc721.burn Dot.lock transfer_by import_header

    run-Untouched :
        (call : RuntimeCall O) (s : Chain B)
        → IsStranger account s
        → Untouched s (run_with k x d call (Origin.ethereum account) s).1
    run-Untouched (basic_inbound_submit message) s ne = refl
    run-Untouched (incentivized_inbound_submit message) s ne = refl
    run-Untouched (incentivized_inbound_set_reward_fraction fraction) s ne =
        still s _ (reward_refused k x d account s fraction council)
    run-Untouched (light_client_import_header header proof) s ne = refl
    run-Untouched (assets_transfer asset_id dest amount) s ne = refl
    run-Untouched (dot_lock channel_id recipient amount) s ne = refl
    run-Untouched (dot_unlock sender recipient amount) s ne =
        still s _ (unlock_refused k x d account s sender recipient amount ne.not_dot)
    run-Untouched (eth_burn channel_id recipient amount) s ne = refl
    run-Untouched (eth_mint sender recipient amount) s ne =
        still s _ (eth_refused k x d account s sender recipient amount ne.not_eth)
    run-Untouched (erc20_burn channel_id contract recipient amount) s ne = refl
    run-Untouched (erc20_mint contract sender recipient amount) s ne =
        still s _ (erc20_refused k x d account s contract sender recipient amount ne.not_erc20)
    run-Untouched (erc721_burn channel_id nft_id recipient) s ne = refl
    run-Untouched (erc721_mint sender recipient contract token_id token_uri) s ne =
        still s _ (
          erc721_refused k x d account s sender recipient contract token_id token_uri ne.not_erc721)
    run-Untouched (frame_call o) s ne = refl
    run-Untouched (nested o calls) s ne =
        elim (Option-cases (x.origin_of_nested o (Origin.ethereum account) s.frame)) [
          | inl bad ↦ still s _ (
              ap (λ (r : Result DispatchError (Unit {0}) × Chain B). r.1)
                (nested_refused k x d (Origin.ethereum account) s o calls bad))
          | inr (inner, given) ↦
              elim (nested_given k x d (Origin.ethereum account) s o calls inner given) [
                | inl back ↦ still s _ back
                | inr on ↦ subst (Untouched s) (sym on) (
                    subst (λ (origin : Origin). Untouched s (run_all k x d calls origin s).1)
                      (sym (h.keeps o account s.frame inner given)) (all-Untouched calls s ne))
              ]
        ]

    all-Untouched :
        (calls : RuntimeCalls O) (s : Chain B)
        → IsStranger account s
        → Untouched s (run_all k x d calls (Origin.ethereum account) s).1
    all-Untouched no_calls s ne = refl
    all-Untouched (and_call call calls) s ne =
        let first = run-Untouched call s ne in
        let t = (run_with k x d call (Origin.ethereum account) s).1 in
        elim (Result-cases (run_with k x d call (Origin.ethereum account) s).0) [
          | inl (u, fine) ↦
              let rest = all-Untouched calls t (stays-IsStranger account s t first ne) in
              subst (λ (r : Result DispatchError (Unit {0}) × Chain B). Untouched s r.1)
                (sym (all_ok k x d (Origin.ethereum account) s call calls u fine))
                (Untouched-trans s t _ first rest)
          | inr (bad, failed) ↦
              subst (λ (r : Result DispatchError (Unit {0}) × Chain B). Untouched s r.1)
                (sym (all_err k x d (Origin.ethereum account) s call calls bad failed)) first
        ]

-- Where no Ethereum account is the root or the council, and a call of FRAME that runs others for an
-- Ethereum account gives them the origin of that account: a message from Ethereum whose source is none
-- of the contracts of the applications leaves all storage of the bridge as it is, the assets, the
-- tokens, the light client and the channels, whatever call its payload holds. Only the storage of FRAME
-- and the events of the dispatch pallet may change.
pub deliver-Untouched :
    {B O : Type 0} (k : Constants) (x : External B O) (source : H160) (id : MessageId)
    (payload : Bytes) (s : Chain B)
    → KeepsAccount x
    → IsCouncil x
    → IsStranger source s
    → Untouched s ((deliver k x).dispatch source id payload s)
unfolding DispatchPallet.dispatch run
deliver-Untouched k x source id payload s h council ne =
    elim (Option-cases (x.decode_call payload)) [
      | inl bad ↦ ground (arith, bad)
      | inr (call, good) ↦
          let run_one = run k x 0 call (Origin.ethereum source) s in
          let all : Untouched s run_one.1 =
            run-Untouched k x h council (record { dispatch = λ source id payload s. s }) source call
              s ne in
          ground (arith, good, all)
    ]

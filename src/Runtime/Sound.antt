-- ===== src/Runtime/Sound.antt =====
-- What every call keeps of the chain (Kept).
use polkadot_ethereum.Prelude.{ℕ, suc, zero, inl, inr, refl, arith, Option-cases, subst, sym}
use polkadot_ethereum.Frame.{Dispatch, Origin, DispatchError, Result}
use polkadot_ethereum.Frame.Outcome.{Result-cases}
use polkadot_ethereum.Core.{AssetId, Bytes, H160, MessageId, U256, asset_eq}
use polkadot_ethereum.Contracts.{MessageDispatch}
use polkadot_ethereum.Assets.{transfer}
use polkadot_ethereum.Assets.Calls.{transfer_by}
use polkadot_ethereum.Assets.Sound.{operations-IsSound}
use polkadot_ethereum.Channels.Incentivized.Inbound as IncentivizedInbound
use polkadot_ethereum.Dispatch as DispatchPallet
use polkadot_ethereum.Runtime.{Constants, Chain}
use polkadot_ethereum.Runtime.Calls.{
  RuntimeCall, RuntimeCalls, External, basic_inbound_submit, incentivized_inbound_submit,
  incentivized_inbound_set_reward_fraction, light_client_import_header, assets_transfer, dot_lock,
  dot_unlock, eth_burn, eth_mint, erc20_burn, erc20_mint, erc721_burn, erc721_mint, frame_call,
  nested, no_calls, and_call,
}
use polkadot_ethereum.Runtime.Nested.{nested_given, nested_refused, all_ok, all_err}
use polkadot_ethereum.Runtime.Run.{run_with, run_all, run, dispatch_config}
use polkadot_ethereum.Runtime.Kept.{Kept, assets-Kept, same-Kept}
use polkadot_ethereum.Runtime.Apps.{
  eth_burn-Kept, eth_mint-Kept, erc20_burn-Kept, erc20_mint-Kept, dot_lock-Kept, dot_unlock-Kept,
}
use polkadot_ethereum.Runtime.Nfts.{erc721_burn-Kept, erc721_mint-Kept}
use polkadot_ethereum.Runtime.Messages.{KeptBy, basic-Kept, incentivized-Kept}

module _ {B O : Type 0} {start : Chain B} (k : Constants) (x : External B O)
    (d : MessageDispatch (Chain B)) where
  set_reward-Kept :
      (fraction : ℕ) (origin : Origin) (s : Chain B)
      → Kept k x start s
      → Kept k x start
          (run_with k x d (incentivized_inbound_set_reward_fraction fraction) origin s).1
  unfolding run_with IncentivizedInbound.set_reward_fraction
  set_reward-Kept fraction origin s h = same-Kept s _ (ground arith) h

  transfer-Kept :
      (asset_id : AssetId) (dest : ℕ) (amount : U256) (origin : Origin) (s : Chain B)
      → Kept k x start s
      → Kept k x start (run_with k x d (assets_transfer asset_id dest amount) origin s).1
  unfolding run_with transfer_by
  transfer-Kept asset_id dest amount (Origin.signed who) s h =
      elim (Option-cases (x.lookup_account dest)) [
        | inl bad ↦ same-Kept s _ (ground (arith, bad)) h
        | inr (to, known) ↦
            same-Kept (record s { assets = (transfer asset_id who to amount s.assets).1 }) _
              (ground (arith, known))
              (assets-Kept _ s ((operations-IsSound asset_id who to amount).2.at s.assets h.sound)
                h)
      ]
  transfer-Kept asset_id dest amount Origin.root s h = h
  transfer-Kept asset_id dest amount Origin.unsigned s h = h
  transfer-Kept asset_id dest amount (Origin.ethereum account) s h = h

  mutual
    unfolding run_with run_all

    run-Kept :
        (call : RuntimeCall O) (origin : Origin) (s : Chain B)
        → KeptBy k x start d
        → Kept k x start s
        → Kept k x start (run_with k x d call origin s).1
    run-Kept (basic_inbound_submit message) origin s each h =
        basic-Kept k x d origin message s each h
    run-Kept (incentivized_inbound_submit message) origin s each h =
        incentivized-Kept k x d origin message s each h
    run-Kept (incentivized_inbound_set_reward_fraction fraction) origin s each h =
        set_reward-Kept fraction origin s h
    run-Kept (light_client_import_header header proof) origin s each h =
        same-Kept s _ (refl, refl, refl, refl, refl) h
    run-Kept (assets_transfer asset_id dest amount) origin s each h =
        transfer-Kept asset_id dest amount origin s h
    run-Kept (dot_lock channel_id recipient amount) origin s each h =
        dot_lock-Kept k x origin s h channel_id recipient amount
    run-Kept (dot_unlock sender recipient amount) origin s each h =
        dot_unlock-Kept k x origin s h sender recipient amount
    run-Kept (eth_burn channel_id recipient amount) origin s each h =
        eth_burn-Kept k x origin s h channel_id recipient amount
    run-Kept (eth_mint sender recipient amount) origin s each h =
        eth_mint-Kept k x origin s h sender recipient amount
    run-Kept (erc20_burn channel_id contract recipient amount) origin s each h =
        erc20_burn-Kept k x origin s h channel_id contract recipient amount
    run-Kept (erc20_mint contract sender recipient amount) origin s each h =
        erc20_mint-Kept k x origin s h contract sender recipient amount
    run-Kept (erc721_burn channel_id nft_id recipient) origin s each h =
        erc721_burn-Kept k x origin s h channel_id nft_id recipient
    run-Kept (erc721_mint sender recipient contract token_id token_uri) origin s each h =
        erc721_mint-Kept k x origin s h sender recipient contract token_id token_uri
    run-Kept (frame_call o) origin s each h = same-Kept s _ (refl, refl, refl, refl, refl) h
    run-Kept (nested o calls) origin s each h =
        elim (Option-cases (x.origin_of_nested o origin s.frame)) [
          | inl bad ↦
              subst (λ (r : Result DispatchError (Unit {0}) × Chain B). Kept k x start r.1)
                (sym (nested_refused k x d origin s o calls bad)) h
          | inr (inner, given) ↦ elim (nested_given k x d origin s o calls inner given) [
            | inl back ↦ subst (Kept k x start) (sym back) h
            | inr on ↦ subst (Kept k x start) (sym on) (all-Kept calls inner s each h)
          ]
        ]

    all-Kept :
        (calls : RuntimeCalls O) (origin : Origin) (s : Chain B)
        → KeptBy k x start d
        → Kept k x start s
        → Kept k x start (run_all k x d calls origin s).1
    all-Kept no_calls origin s each h = h
    all-Kept (and_call call calls) origin s each h =
        let first = run-Kept call origin s each h in
        elim (Result-cases (run_with k x d call origin s).0) [
          | inl (u, fine) ↦
              subst (λ (r : Result DispatchError (Unit {0}) × Chain B). Kept k x start r.1)
                (sym (all_ok k x d origin s call calls u fine))
                (all-Kept calls origin (run_with k x d call origin s).1 each first)
          | inr (bad, failed) ↦
              subst (λ (r : Result DispatchError (Unit {0}) × Chain B). Kept k x start r.1)
                (sym (all_err k x d origin s call calls bad failed)) first
        ]

module _ {B O : Type 0} (k : Constants) (x : External B O) (start : Chain B) where
  -- Running any call keeps the chain in order.
  pub record KeptCall (run_call : RuntimeCall O → Origin → Dispatch (Chain B)) : Type 0 where
    pub kept :
        (call : RuntimeCall O) (origin : Origin) (s : Chain B)
        → Kept k x start s
        → Kept k x start (run_call call origin s).1

  dispatch-Kept :
      (run_call : RuntimeCall O → Origin → Dispatch (Chain B)) (source : H160) (id : MessageId)
      (payload : Bytes) (s : Chain B)
      → KeptCall run_call
      → Kept k x start s
      → Kept k x start (DispatchPallet.dispatch (dispatch_config k x run_call) source id payload s)
  unfolding DispatchPallet.dispatch
  dispatch-Kept run_call source id payload s each h = elim (Option-cases (x.decode_call payload)) [
    | inl bad ↦ same-Kept s _ (ground (arith, bad)) h
    | inr (call, good) ↦
        same-Kept (run_call call (Origin.ethereum source) s).1 _ (ground (arith, good))
          (each.kept call (Origin.ethereum source) s h)
  ]

  pub depth-KeptCall : (depth : ℕ) → KeptCall (run k x depth)
  unfolding run
  depth-KeptCall zero = record {
    kept = λ call origin s h.
        run-Kept k x _ call origin s (record { kept = λ source id payload t g. g }) h;
  }
  depth-KeptCall (suc depth) = record {
    kept = λ call origin s h.
        run-Kept k x _ call origin s
          (record {
            kept = λ source id payload t g.
                dispatch-Kept (run k x depth) source id payload t (depth-KeptCall depth) g;
          })
          h;
  }

-- ===== src/Runtime/Depth.antt =====
-- A message's call cannot have another message dispatched, so one level is enough.
use polkadot_ethereum.Prelude.{
  ℕ, some, suc, zero, inl, inr, refl, arith, ◌≡◌, Option-cases, ap, fun_ext,
}
use polkadot_ethereum.Frame.{Origin}
use polkadot_ethereum.Frame.Outcome.{Result-cases}
use polkadot_ethereum.Core.{H160, Bytes, MessageId}
use polkadot_ethereum.Contracts.{MessageDispatch}
use polkadot_ethereum.Channels.Basic.Inbound as BasicInbound
use polkadot_ethereum.Channels.Incentivized.Inbound as IncentivizedInbound
use polkadot_ethereum.Dispatch as DispatchPallet
use polkadot_ethereum.Runtime.{Constants, Chain}
use polkadot_ethereum.Runtime.Calls.{
  RuntimeCall, RuntimeCalls, External, basic_inbound_submit, incentivized_inbound_submit,
  incentivized_inbound_set_reward_fraction, light_client_import_header, assets_transfer, dot_lock,
  dot_unlock, eth_burn, eth_mint, erc20_burn, erc20_mint, erc721_burn, erc721_mint, frame_call,
  nested, no_calls, and_call,
}
use polkadot_ethereum.Runtime.Run.{run_with, run_all, run, execute, dispatch_config}

-- A call of FRAME that runs others for an Ethereum account gives them the origin of that account.
pub record KeepsAccount {B O : Type 0} (x : External B O) : Type 0 where
  pub keeps :
      (o : O) (account : H160) (b : B) (inner : Origin)
      → x.origin_of_nested o (Origin.ethereum account) b ≡ some inner
      → inner ≡ Origin.ethereum account

module _ {B O : Type 0} (k : Constants) (x : External B O) (h : KeepsAccount x)
    (d e : MessageDispatch (Chain B)) (account : H160) where
  mutual
    unfolding run_with run_all BasicInbound.submit IncentivizedInbound.submit
        IncentivizedInbound.set_reward_fraction

    same_run :
        (call : RuntimeCall O) (s : Chain B)
        → run_with k x d call (Origin.ethereum account) s
          ≡ run_with k x e call (Origin.ethereum account) s
    same_run (basic_inbound_submit message) s = refl
    same_run (incentivized_inbound_submit message) s = refl
    same_run (incentivized_inbound_set_reward_fraction fraction) s = refl
    same_run (light_client_import_header header proof) s = refl
    same_run (assets_transfer asset_id dest amount) s = refl
    same_run (dot_lock channel_id recipient amount) s = refl
    same_run (dot_unlock sender recipient amount) s = refl
    same_run (eth_burn channel_id recipient amount) s = refl
    same_run (eth_mint sender recipient amount) s = refl
    same_run (erc20_burn channel_id contract recipient amount) s = refl
    same_run (erc20_mint contract sender recipient amount) s = refl
    same_run (erc721_burn channel_id nft_id recipient) s = refl
    same_run (erc721_mint sender recipient contract token_id token_uri) s = refl
    same_run (frame_call o) s = refl
    same_run (nested o calls) s =
        elim (Option-cases (x.origin_of_nested o (Origin.ethereum account) s.frame)) [
          | inl none_given ↦ ground (arith, none_given)
          | inr (inner, given) ↦
              let same = h.keeps o account s.frame inner given in
              ground (arith, given, same, same_all calls s)
        ]

    same_all :
        (calls : RuntimeCalls O) (s : Chain B)
        → run_all k x d calls (Origin.ethereum account) s
          ≡ run_all k x e calls (Origin.ethereum account) s
    same_all no_calls s = refl
    same_all (and_call call calls) s =
        elim (Result-cases (run_with k x d call (Origin.ethereum account) s).0) [
          | inl (u, fine) ↦ ground (
            arith,
            fine,
            same_run call s,
            same_all calls (run_with k x d call (Origin.ethereum account) s).1,
          )
          | inr (bad, failed) ↦ ground (arith, failed, same_run call s)
        ]

module _ {B O : Type 0} (k : Constants) (x : External B O) (h : KeepsAccount x) where
  -- For an Ethereum account the depth does not matter.
  run_account :
      (n : ℕ) (call : RuntimeCall O) (account : H160) (s : Chain B)
      → run k x n call (Origin.ethereum account) s ≡ run k x 0 call (Origin.ethereum account) s
  unfolding run
  run_account zero call account s = refl
  run_account (suc n) call account s = same_run k x h _ _ account call s

  dispatch_depth :
      (n : ℕ) (source : H160) (id : MessageId) (payload : Bytes) (s : Chain B)
      → DispatchPallet.dispatch (dispatch_config k x (run k x n)) source id payload s
        ≡ DispatchPallet.dispatch (dispatch_config k x (run k x 0)) source id payload s
  unfolding DispatchPallet.dispatch
  dispatch_depth n source id payload s = elim (Option-cases (x.decode_call payload)) [
    | inl bad ↦ ground (arith, bad)
    | inr (call, good) ↦ ground (arith, good, run_account n call source s)
  ]

  -- Where a call of FRAME that runs others for an Ethereum account gives them the origin of that
  -- account, a call of the chain has the same result and state however deep messages may be
  -- dispatched within messages: one level is enough.
  pub run_depth :
      (n : ℕ) (call : RuntimeCall O) (origin : Origin) (s : Chain B)
      → run k x (suc n) call origin s ≡ execute k x call origin s
  unfolding run
  run_depth n call origin s =
      ap
        (λ (d : H160 → MessageId → Bytes → Chain B → Chain B).
          run_with k x (record { dispatch = d }) call origin s)
        (fun_ext λ source.
          fun_ext λ id. fun_ext λ payload. fun_ext λ t. dispatch_depth n source id payload t)

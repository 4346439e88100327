-- ===== src/Runtime/Refused.antt =====
-- What the applications and the incentivized channel refuse to an Ethereum account.
use polkadot_ethereum.Prelude.{inl, inr, ℕ, arith, ◌≡◌, ◌≢◌, false}
use polkadot_ethereum.Frame.{Origin}
use polkadot_ethereum.Core.{Bytes, H160, U256, asset_eq}
use polkadot_ethereum.Contracts.{MessageDispatch}
use polkadot_ethereum.Apps.{ensure_peer_cases}
use polkadot_ethereum.Apps.Dot as Dot
use polkadot_ethereum.Apps.Eth as Eth
use polkadot_ethereum.Apps.Erc20 as Erc20
use polkadot_ethereum.Apps.Erc721 as Erc721
use polkadot_ethereum.Channels.Incentivized.Inbound as IncentivizedInbound
use polkadot_ethereum.Runtime.{
  Constants, Chain, dot_app_part, eth_app_part, erc20_app_part, erc721_app_part,
}
use polkadot_ethereum.Runtime.Calls.{
  External, incentivized_inbound_set_reward_fraction, dot_unlock, eth_mint, erc20_mint, erc721_mint,
}
use polkadot_ethereum.Runtime.Run.{run_with, app_at}

-- No Ethereum account is the root or the council.
pub record IsCouncil {B O : Type 0} (x : External B O) : Type 0 where
  pub refuses : (account : H160) → x.root_or_half_council (Origin.ethereum account) ≡ false

module _ {B O : Type 0} (k : Constants) (x : External B O) (d : MessageDispatch (Chain B))
    (account : H160) (s : Chain B) where
  pub reward_refused :
      (fraction : ℕ)
      → IsCouncil x
      → (run_with k x d
          (incentivized_inbound_set_reward_fraction fraction)
          (Origin.ethereum account)
          s).1
        ≡ s
  unfolding run_with IncentivizedInbound.set_reward_fraction
  reward_refused fraction council = ground (arith, council.refuses account)

  pub unlock_refused :
      (sender : H160) (recipient : ℕ) (amount : U256)
      → account ≢ s.dot_app
      → (run_with k x d (dot_unlock sender recipient amount) (Origin.ethereum account) s).1 ≡ s
  unfolding run_with Dot.unlock
  unlock_refused sender recipient amount ne =
      elim (ensure_peer_cases (app_at k x dot_app_part) (Origin.ethereum account) s) [
        | inl (_, peer) ↦ absurd (ne (ground (arith, peer)))
        | inr (bad, _) ↦ ground (arith, bad)
      ]

  pub eth_refused :
      (sender : H160) (recipient : ℕ) (amount : U256)
      → account ≢ s.eth_app
      → (run_with k x d (eth_mint sender recipient amount) (Origin.ethereum account) s).1 ≡ s
  unfolding run_with Eth.mint
  eth_refused sender recipient amount ne =
      elim (ensure_peer_cases (app_at k x eth_app_part) (Origin.ethereum account) s) [
        | inl (_, peer) ↦ absurd (ne (ground (arith, peer)))
        | inr (bad, _) ↦ ground (arith, bad)
      ]

  pub erc20_refused :
      (contract sender : H160) (recipient : ℕ) (amount : U256)
      → account ≢ s.erc20_app
      → (run_with k x d (erc20_mint contract sender recipient amount) (Origin.ethereum account) s).1
        ≡ s
  unfolding run_with Erc20.mint
  erc20_refused contract sender recipient amount ne =
      elim (ensure_peer_cases (app_at k x erc20_app_part) (Origin.ethereum account) s) [
        | inl (_, peer) ↦ absurd (ne (ground (arith, peer)))
        | inr (bad, _) ↦ ground (arith, bad)
      ]

  pub erc721_refused :
      (sender : H160) (recipient : ℕ) (contract : H160) (token_id : U256) (token_uri : Bytes)
      → account ≢ s.erc721_app
      → (run_with k x d
          (erc721_mint sender recipient contract token_id token_uri)
          (Origin.ethereum account)
          s).1
        ≡ s
  unfolding run_with Erc721.mint
  erc721_refused sender recipient contract token_id token_uri ne =
      elim (ensure_peer_cases (app_at k x erc721_app_part) (Origin.ethereum account) s) [
        | inl (_, peer) ↦ absurd (ne (ground (arith, peer)))
        | inr (bad, _) ↦ ground (arith, bad)
      ]

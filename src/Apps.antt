-- ===== src/Apps.antt =====
-- The applications: parachain/pallets/eth-app, erc20-app, dot-app and erc721-app. Each burns or locks
-- on a call of a user, and mints or unlocks on a message of its peer contract on Ethereum.
pub mod Eth
pub mod Erc20
pub mod Dot
pub mod Erc721
mod Tests
use polkadot_ethereum.Frame.{
  ◌>>=◌, ◌>>◌, err, Origin, Origin, Origin, Part, Dispatch, Call, DispatchError, Origin,
  DispatchError, ok, Origin, ok_or, gets, ensure,
}
use polkadot_ethereum.Prelude.{◌≡◌, String, List, arith, Option, ℕ, ◌==◌, ◌≢◌, ◌⊎◌}
use polkadot_ethereum.Core.{AccountId, H160, Bytes}
use polkadot_ethereum.Contracts.{OutboundRouter, Token}
use polkadot_ethereum.Dispatch.{ethereum_account}

-- What the applications share: where the address of the peer contract lies, the router of outbound
-- messages, `T::Lookup`, the encoding of an account, and `ethabi::encode_function`.
pub record App (S : Type 0) : Type 0 where
  pub address : Part S H160
  pub router : OutboundRouter S
  pub lookup_account : ℕ → Option AccountId
  pub encode_account : AccountId → Bytes
  pub encode_function : String → List Token → Bytes

module _ {S : Type 0} (app : App S) where
  -- `T::CallOrigin::ensure_origin(origin)?` and the test that it is the peer.
  unfoldable pub ensure_peer : Origin → Dispatch S
  ensure_peer origin = do
    who ← ok_or (ethereum_account origin) DispatchError.bad_origin
    address ← gets app.address.get
    ensure (who == address) DispatchError.bad_origin

  abbrev pub lookup_or_fail : ℕ → Call S AccountId
  lookup_or_fail source = ok_or (app.lookup_account source) DispatchError.cannot_lookup

  -- Only the peer contract passes, and the state stays.
  pub ensure_peer_cases :
      (origin : Origin) (s : S)
      → ((ensure_peer origin s ≡ (ok tt, s)) × (origin ≡ Origin.ethereum (app.address.get s)))
        ⊎ ((ensure_peer origin s ≡ (err DispatchError.bad_origin, s))
            × (origin ≢ Origin.ethereum (app.address.get s)))
  unfolding ensure_peer
  ensure_peer_cases (Origin.ethereum who) s = ground arith
  ensure_peer_cases Origin.root s = ground arith
  ensure_peer_cases Origin.unsigned s = ground arith
  ensure_peer_cases (Origin.signed who) s = ground arith

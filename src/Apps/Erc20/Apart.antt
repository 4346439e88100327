-- ===== src/Apps/Erc20/Apart.antt =====
-- What minting a token leaves alone.
use polkadot_ethereum.Frame.{Part, Origin}
use polkadot_ethereum.Prelude.{inl, Option-cases, ◌≡◌, inr, ℕ, arith, ◌≢◌}
use polkadot_ethereum.Core.{H160, AssetId, U256, AccountId, AssetId}
use polkadot_ethereum.Apps.{App, ensure_peer_cases}
use polkadot_ethereum.Assets.{Assets, balance, total_issuance, deposit}
use polkadot_ethereum.Apps.Erc20.{mint}
use polkadot_ethereum.Assets.Apart.{deposit_apart}

-- Minting a token of one contract, by whomever it is tried and however it ends, changes neither the
-- balances nor the issuance of ether or of another contract's token.
pub mint_apart :
    {S : Type 0} (app : App S) (assets : Part S Assets) (origin : Origin) (contract sender : H160)
    (recipient : ℕ) (amount : U256) (s : S) (b : AssetId) (z : AccountId)
    → AssetId.token contract ≢ b
    → (balance b z (assets.get (mint app assets origin contract sender recipient amount s).1)
        ≡ balance b z (assets.get s))
      × (total_issuance b (assets.get (mint app assets origin contract sender recipient amount s).1)
          ≡ total_issuance b (assets.get s))
unfolding mint
mint_apart app assets origin contract sender recipient amount s b z ne =
    elim (ensure_peer_cases app origin s) [
      | inr (bad, _) ↦ ground (arith, bad)
      | inl (fine, peer) ↦ elim (Option-cases (app.lookup_account recipient)) [
        | inl bad ↦ ground (arith, fine, bad)
        | inr (who, known) ↦
            let (bal, iss) =
              deposit_apart (AssetId.token contract) b who z amount (assets.get s) ne in
            let back =
              assets.get_put (deposit (AssetId.token contract) who amount (assets.get s)).1 s in
            ground (arith, fine, known, bal, iss, back)
      ]
    ]

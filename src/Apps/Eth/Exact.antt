-- ===== src/Apps/Eth/Exact.antt =====
-- When burning and minting ether succeed, and what they do.
use polkadot_ethereum.Frame.{
  Part, DispatchError, DispatchError, Origin, Origin, DispatchError, err, ok, signer,
}
use polkadot_ethereum.Assets.{Assets, withdraw, deposit}
use polkadot_ethereum.Prelude.{
  inl, ◌≡◌, ◌↔◌, inr, refl, ◌⊎◌, ℕ, arith, some, Option-cases, ◌∙◌, subst, ap, sym,
}
use polkadot_ethereum.Core.{AccountId, H160, ChannelId, AssetId, U256}
use polkadot_ethereum.Apps.{App, ensure_peer_cases, ensure_peer}
use polkadot_ethereum.Frame.Outcome.{Result-cases}
use polkadot_ethereum.Apps.Eth.{burn, mint, encode}

module _ {S : Type 0} (app : App S) (assets : Part S Assets) (s : S) where
  -- The state after `withdraw`.
  abbrev pub without : AccountId → U256 → S
  without who amount = assets.put (withdraw AssetId.eth who amount (assets.get s)).1 s

  pub record Burns (origin : Origin) (channel_id : ChannelId) (recipient : H160) (amount : U256)
      (t : S) : Type 0 where
    pub who : AccountId
    pub signed_by : signer origin ≡ some who
    pub withdrawn : (withdraw AssetId.eth who amount (assets.get s)).0 ≡ ok tt
    pub submitted :
        app.router.submit channel_id who
          (app.address.get (without who amount))
          (encode app assets who recipient amount)
          (without who amount)
        ≡ (ok tt, t)

  pub record Mints (origin : Origin) (recipient : ℕ) (amount : U256) (t : S) : Type 0 where
    pub by_peer : origin ≡ Origin.ethereum (app.address.get s)
    pub who : AccountId
    pub looked_up : app.lookup_account recipient ≡ some who
    pub deposited : (deposit AssetId.eth who amount (assets.get s)).0 ≡ ok tt
    pub result : t ≡ assets.put (deposit AssetId.eth who amount (assets.get s)).1 s

  pub burn_complete :
      (origin : Origin) (channel_id : ChannelId) (recipient : H160) (amount : U256) (t : S)
      → Burns origin channel_id recipient amount t
      → burn app assets origin channel_id recipient amount s ≡ (ok tt, t)
  unfolding burn
  burn_complete origin channel_id recipient amount t b =
      ground (arith, b.signed_by, b.withdrawn, b.submitted)

  pub burn_cases :
      (origin : Origin) (channel_id : ChannelId) (recipient : H160) (amount : U256)
      → ((t : S) × Burns origin channel_id recipient amount t)
        ⊎ ((e : DispatchError) × (burn app assets origin channel_id recipient amount s
              ≡ (err e, s)))
  unfolding burn
  burn_cases origin channel_id recipient amount = elim (Option-cases (signer origin)) [
    | inl bad ↦ inr (DispatchError.bad_origin, ground (arith, bad))
    | inr (who, by) ↦ elim (Result-cases (withdraw AssetId.eth who amount (assets.get s)).0) [
      | inr (e, bad) ↦ inr (e, ground (arith, by, bad))
      | inl (u, fine) ↦
          let call =
            app.router.submit channel_id who (app.address.get (without who amount))
              (encode app assets who recipient amount) (without who amount) in
          elim (Result-cases call.0) [
            | inr (e, bad) ↦ inr (e, ground (arith, by, fine, bad))
            | inl (v, sent) ↦ inl (
              call.1,
              record {
                who = who;
                signed_by = by;
                withdrawn = fine;
                submitted = ground (arith, sent);
              },
            )
          ]
    ]
  ]

  pub mint_complete :
      (origin : Origin) (sender : H160) (recipient : ℕ) (amount : U256) (t : S)
      → Mints origin recipient amount t
      → mint app assets origin sender recipient amount s ≡ (ok tt, t)
  unfolding mint ensure_peer
  mint_complete origin sender recipient amount t m =
      ground (arith, m.by_peer, m.looked_up, m.deposited, m.result)

  pub mint_cases :
      (origin : Origin) (sender : H160) (recipient : ℕ) (amount : U256)
      → ((t : S) × Mints origin recipient amount t)
        ⊎ ((e : DispatchError) × (mint app assets origin sender recipient amount s ≡ (err e, s)))
  unfolding mint
  mint_cases origin sender recipient amount = elim (ensure_peer_cases app origin s) [
    | inr (bad, _) ↦ inr (DispatchError.bad_origin, ground (arith, bad))
    | inl (fine, peer) ↦ elim (Option-cases (app.lookup_account recipient)) [
      | inl bad ↦ inr (DispatchError.cannot_lookup, ground (arith, fine, bad))
      | inr (who, known) ↦ elim (Result-cases (deposit AssetId.eth who amount (assets.get s)).0) [
        | inr (e, bad) ↦ inr (e, ground (arith, fine, known, bad))
        | inl (u, done) ↦ inl (
          assets.put (deposit AssetId.eth who amount (assets.get s)).1 s,
          record { by_peer = peer; who = who; looked_up = known; deposited = done; result = refl },
        )
      ]
    ]
  ]

-- Ether is minted exactly when the origin is the peer contract on Ethereum, the recipient is known and
-- the deposit succeeds, and nothing but that deposit is done; a call that fails changes nothing.
pub mint_iff :
    {S : Type 0} (app : App S) (assets : Part S Assets) (origin : Origin) (sender : H160)
    (recipient : ℕ) (amount : U256) (s : S)
    → ((t : S)
        → (mint app assets origin sender recipient amount s ≡ (ok tt, t))
          ↔ Mints app assets s origin recipient amount t)
      × ((e : DispatchError)
          → (mint app assets origin sender recipient amount s).0 ≡ err e
          → (mint app assets origin sender recipient amount s).1 ≡ s)
mint_iff app assets origin sender recipient amount s =
    elim (mint_cases app assets s origin sender recipient amount) [
      | inl (u, b) ↦
          let done = mint_complete app assets s origin sender recipient amount u b in
          (
            λ t. (
              λ h.
                  subst (Mints app assets s origin recipient amount) (ap (λ r. r.1) (sym done ∙ h))
                    b,
              mint_complete app assets s origin sender recipient amount t,
            ),
            λ e h. cc (done, h),
          )
      | inr (x, failed) ↦ (
        λ t. (
          λ h. absurd (cc (failed, h)),
          mint_complete app assets s origin sender recipient amount t,
        ),
        λ e h. cc failed,
      )
    ]

-- ===== src/Assets/Transfer.antt =====
-- What the operations do to the balances of the two accounts, and of the others.
use polkadot_ethereum.Assets.Sound.{IsSound, balance-le-issuance, transfer-issuance}
use polkadot_ethereum.Core.{AssetId, AccountId, U256, asset_eq, asset_beq_iff}
use polkadot_ethereum.Assets.Sum.{two_balances-le-sum}
use polkadot_ethereum.Assets.{withdraw, Assets, transfer, balance, total_issuance}
use polkadot_ethereum.Prelude.Map.{lookup-insert, insert}
use polkadot_ethereum.Frame.{is_ok, ok, err, DispatchError, AssetsError}
use polkadot_ethereum.Prelude.Eq.{pair_beq, nat_eq, pair_eq, list_eq}
use polkadot_ethereum.Prelude.{
  ◌+◌, ◌≡◌, ◌≢◌, ◌<◌, ◌≤◌, false, true, ◌≤◌, ◌<◌, ◌↔◌, ◌↔◌, arith, ◌-◌, ◌-◌, ◌⊎◌, ◌⊎◌, dec_lt, inl,
  inr,
}

-- What a transfer of `v` from `x` to `y` leaves in each account of the asset and of the others.
pub record Moved (a : AssetId) (x y : AccountId) (v : U256) (s t : Assets) : Type 0 where
  pub source : balance a x t + v ≡ balance a x s
  pub target : balance a y t ≡ balance a y s + v
  pub rest :
      (b : AssetId) (z : AccountId)
      → pair_beq (a, x) (b, z) ≡ false
      → pair_beq (a, y) (b, z) ≡ false
      → balance b z t ≡ balance b z s
  pub issuances : (b : AssetId) → total_issuance b t ≡ total_issuance b s

module _ (a : AssetId) (x y : AccountId) (v : U256) (s : Assets) where
  transfer_short :
      v ≢ 0
      → x ≢ y
      → balance a x s < v
      → transfer a x y v s ≡ (err (DispatchError.assets AssetsError.insufficient_balance), s)
  unfolding transfer
  transfer_short nz ne h = ground arith

  transfer_covered : IsSound s → v ≢ 0 → x ≢ y → v ≤ balance a x s → (transfer a x y v s).0 ≡ ok tt
  unfolding transfer
  transfer_covered h nz ne c =
      ground (arith, h.backed a, h.fits a, two_balances-le-sum a x y s.balances ne)

  transfer_source :
      (transfer a x y v s).0 ≡ ok tt
      → x ≢ y
      → balance a x (transfer a x y v s).1 + v ≡ balance a x s
  unfolding transfer
  transfer_source k ne = ground (
    arith,
    lookup-insert (a, x) (a, x) (balance a x s - v) (insert (a, y) (balance a y s + v) s.balances),
    asset_beq_iff a a,
  )

  transfer_target :
      (transfer a x y v s).0 ≡ ok tt
      → x ≢ y
      → balance a y (transfer a x y v s).1 ≡ balance a y s + v
  unfolding transfer
  transfer_target k ne = ground (
    arith,
    lookup-insert (a, y) (a, x) (balance a x s - v) (insert (a, y) (balance a y s + v) s.balances),
    lookup-insert (a, y) (a, y) (balance a y s + v) s.balances,
    asset_beq_iff a a,
  )

  transfer_rest :
      (b : AssetId) (z : AccountId)
      → pair_beq (a, x) (b, z) ≡ false
      → pair_beq (a, y) (b, z) ≡ false
      → balance b z (transfer a x y v s).1 ≡ balance b z s
  unfolding transfer
  transfer_rest b z p q = ground (
    arith,
    lookup-insert (b, z) (a, x) (balance a x s - v) (insert (a, y) (balance a y s + v) s.balances),
    lookup-insert (b, z) (a, y) (balance a y s + v) s.balances,
    asset_beq_iff a b,
  )

-- In a state where issuances are backed, a transfer of a positive amount between two different
-- accounts is refused, with no change, exactly when the source holds less than the amount;
-- otherwise it succeeds, takes the amount from the source, adds it to the target, and changes no
-- other balance, of this asset or another, and no issuance. It never overflows the target.
pub transfer_exact :
    (a : AssetId) (x y : AccountId) (v : U256) (s : Assets)
    → IsSound s
    → v ≢ 0
    → x ≢ y
    → ((balance a x s < v)
        × (transfer a x y v s ≡ (err (DispatchError.assets AssetsError.insufficient_balance), s)))
      ⊎ ((v ≤ balance a x s)
          × ((transfer a x y v s).0 ≡ ok tt)
          × Moved a x y v s (transfer a x y v s).1)
transfer_exact a x y v s h nz ne = elim (dec_lt (balance a x s) v) [
  | yes p ↦ inl (p, transfer_short a x y v s nz ne p)
  | no p ↦
      let c : v ≤ balance a x s = omega arith in
      let k : (transfer a x y v s).0 ≡ ok tt = transfer_covered a x y v s h nz ne c in
      inr (
        c,
        k,
        record {
          source = transfer_source a x y v s k ne;
          target = transfer_target a x y v s k ne;
          rest = transfer_rest a x y v s;
          issuances = transfer-issuance a x y v s;
        },
      )
]

-- Where issuances are backed, a withdrawal succeeds exactly when the account holds the amount.
pub withdraw_exact :
    (a : AssetId) (w : AccountId) (v : U256) (s : Assets)
    → IsSound s
    → ((is_ok (withdraw a w v s).0 ≡ true) ↔ (v ≤ balance a w s))
unfolding withdraw
withdraw_exact a w v s h = ground (arith, balance-le-issuance a w s h)

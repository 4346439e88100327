-- ===== src/Assets/Sound.antt =====
-- The total issuance of an asset is the sum of its balances, in every state that the pallet reaches.
use polkadot_ethereum.Prelude.{◌+◌, ◌≤◌, ◌<◌, ◌≡◌, arith, ◌-◌, ◌-◌}
use polkadot_ethereum.Prelude.Word.{u256_mod}
use polkadot_ethereum.Prelude.Map.{Map, insert, lookup-insert}
use polkadot_ethereum.Core.{AssetId, AccountId, U256, asset_beq_iff, asset_eq}
use polkadot_ethereum.Assets.{Assets, total_issuance, balance, deposit, transfer, withdraw}
use polkadot_ethereum.Assets.Sum.{sum_of, sum-insert, balance-le-sum}
use polkadot_ethereum.Frame.{Keeps}
use polkadot_ethereum.Prelude.Eq.{nat_eq, pair_eq, list_eq}

pub record IsSound (s : Assets) : Type 0 where
  pub backed : (a : AssetId) → total_issuance a s ≡ sum_of a s.balances
  pub fits : (a : AssetId) → total_issuance a s < u256_mod

pub balance-le-issuance :
    (a : AssetId) (w : AccountId) (s : Assets) → IsSound s → balance a w s ≤ total_issuance a s
unfolding balance
balance-le-issuance a w s h = omega (arith, h.backed a, balance-le-sum a w s.balances)

module _ (a b : AssetId) (w : AccountId) (v : U256) (s : Assets) (h : IsSound s) where
  deposit-backed : total_issuance b (deposit a w v s).1 ≡ sum_of b (deposit a w v s).1.balances
  unfolding deposit
  deposit-backed = ground (
    arith,
    h.backed b,
    h.backed a,
    lookup-insert b a (total_issuance a s + v) s.total_issuances,
    sum-insert b a w (balance a w s + v) s.balances,
    asset_beq_iff a b,
  )

  deposit-fits : total_issuance b (deposit a w v s).1 < u256_mod
  unfolding deposit
  deposit-fits =
      ground (arith, h.fits b, lookup-insert b a (total_issuance a s + v) s.total_issuances)

  withdraw-backed : total_issuance b (withdraw a w v s).1 ≡ sum_of b (withdraw a w v s).1.balances
  unfolding withdraw
  withdraw-backed = ground (
    arith,
    h.backed b,
    h.backed a,
    balance-le-sum a w s.balances,
    lookup-insert b a (total_issuance a s - v) s.total_issuances,
    sum-insert b a w (balance a w s - v) s.balances,
    asset_beq_iff a b,
  )

  withdraw-fits : total_issuance b (withdraw a w v s).1 < u256_mod
  unfolding withdraw
  withdraw-fits =
      ground
        (arith, h.fits a, h.fits b, lookup-insert b a (total_issuance a s - v) s.total_issuances)

module _ (a : AssetId) (from to : AccountId) (v : U256) (s : Assets) where
  abbrev taken : Map (AssetId × AccountId) U256
  taken = insert (a, to) (balance a to s + v) s.balances

  transfer-sum : (b : AssetId) → sum_of b (transfer a from to v s).1.balances ≡ sum_of b s.balances
  unfolding transfer
  transfer-sum b = ground (
    arith,
    sum-insert b a to (balance a to s + v) s.balances,
    sum-insert b a from (balance a from s - v) taken,
    lookup-insert (a, from) (a, to) (balance a to s + v) s.balances,
    asset_beq_iff a b,
    asset_beq_iff a a,
  )

  pub transfer-issuance :
      (b : AssetId) → total_issuance b (transfer a from to v s).1 ≡ total_issuance b s
  unfolding transfer total_issuance
  transfer-issuance b = ground arith

-- Whether it succeeds or fails, a deposit, a withdrawal or a transfer keeps, for every asset, the
-- total issuance equal to the sum of the balances and within 256 bits.
pub operations-IsSound :
    (a : AssetId) (who to : AccountId) (v : U256)
    → Keeps IsSound (deposit a who v)
      × Keeps IsSound (withdraw a who v)
      × Keeps IsSound (transfer a who to v)
operations-IsSound a who to v = (
  record {
    at = λ s h. record {
      backed = λ b. deposit-backed a b who v s h;
      fits = λ b. deposit-fits a b who v s h;
    };
  },
  record {
    at = λ s h. record {
      backed = λ b. withdraw-backed a b who v s h;
      fits = λ b. withdraw-fits a b who v s h;
    };
  },
  record {
    at = λ s h. record {
      backed = λ b.
          omega (arith, h.backed b, transfer-sum a who to v s b, transfer-issuance a who to v s b);
      fits = λ b. omega (arith, h.fits b, transfer-issuance a who to v s b);
    };
  },
)

-- ===== src/Channels/Incentivized/Inbound/Fee.antt =====
-- What the fee pays.
use polkadot_ethereum.Frame.{DispatchError, err, ok}
use polkadot_ethereum.Prelude.{ℕ, ◌-◌, ◌+◌, ◌≡◌, some, ◌≤◌, ◌==◌, if◌then◌else◌}
use polkadot_ethereum.Core.{AccountId}
use polkadot_ethereum.Channels.Incentivized.Inbound.{Config}

-- The documented behaviour of `Currency` on free balances, with `Perbill::mul_ceil`.
pub record IsCurrency {S : Type 0} (c : Config S) (free : AccountId → S → ℕ) : Type 0 where
  pub withdraw_fails :
      (who : AccountId) (amount : ℕ) (s : S) (e : DispatchError)
      → (c.currency.withdraw who amount s).0 ≡ err e
      → (c.currency.withdraw who amount s).1 ≡ s
  pub withdraw_pays :
      (who a : AccountId) (amount : ℕ) (s : S)
      → (c.currency.withdraw who amount s).0 ≡ ok tt
      → free a s ≡ free a (c.currency.withdraw who amount s).1 + (if who == a then amount else 0)
  pub deposit_fails :
      (who : AccountId) (amount : ℕ) (s : S) (e : DispatchError)
      → (c.currency.deposit_into_existing who amount s).0 ≡ err e
      → (c.currency.deposit_into_existing who amount s).1 ≡ s
  pub deposit_pays :
      (who a : AccountId) (amount paid : ℕ) (s : S)
      → (c.currency.deposit_into_existing who amount s).0 ≡ ok paid
      → (paid ≡ amount)
        × (free a (c.currency.deposit_into_existing who amount s).1
            ≡ free a s + (if who == a then amount else 0))
  pub resolves :
      (who a : AccountId) (amount : ℕ) (s : S)
      → free a (c.currency.resolve_creating who amount s)
        ≡ free a s + (if who == a then amount else 0)
  pub offsets : (a b : ℕ) → b ≤ a → c.currency.same a b ≡ some (a - b)
  pub ceil_le : (fraction amount : ℕ) → c.mul_ceil fraction amount ≤ amount

module _ {S : Type 0} (c : Config S) (free : AccountId → S → ℕ) (l : IsCurrency c free) where
  -- How a fee is split: some of it, at most all, to the relayer, the rest to the treasury.
  pub record Split (amount : ℕ) (relayer : AccountId) (s t : S) : Type 0 where
    pub reward : ℕ
    pub at_most : reward ≤ amount
    pub pays :
        (a : AccountId)
        → free a t + (if c.source_account == a then amount else 0)
          ≡ free a s
            + (if relayer == a then reward else 0)
            + (if c.treasury_account == a then amount - reward else 0)

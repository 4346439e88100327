-- ===== src/Apps/Dot.antt =====
-- parachain/pallets/dot-app/src: the native currency, locked here and wrapped on Ethereum.
pub mod Wrap
use polkadot_ethereum.Frame.{
  ◌>>=◌, ◌>>◌, Dispatch, DispatchError, DotAppError, Origin, transactional, ensure_signed, ok_or,
  gets, deposit_event,
}
use polkadot_ethereum.Prelude.{
  ◌%◌, none, zero, suc, ◌∷◌, ◌-◌, ℕ, ◌*◌, ◌/◌, ◌==◌, Option, some, if◌then◌else◌, [], leb, ◌+◌,
}
use polkadot_ethereum.Core.{ChannelId, Bytes, AccountId, U256, H160}
use polkadot_ethereum.Apps.{App, ensure_peer, lookup_or_fail}
use polkadot_ethereum.Contracts.{Token, Token, Token}
use polkadot_ethereum.Prelude.Word.{checked_mul, u128_mod, u256_mod}

abbrev pub power : ℕ → ℕ → ℕ
power b zero = 1
power b (suc n) = b * power b n

-- `18 - decimals` of `u32`s, which wraps around in a build without overflow checks.
abbrev pub exponent : ℕ → ℕ
exponent decimals = if leb decimals 18 then 18 - decimals else 4294967296 + 18 - decimals

-- `u64::checked_pow(10, 18 - decimals)`: 10 ^ 19 is the last power of ten that is a `u64`.
pub granularity : ℕ → Option U256
granularity decimals =
    if leb (exponent decimals) 19 then some (power 10 (exponent decimals)) else none

-- `BalanceOf<T>` is a `u128`.
pub unwrap : U256 → ℕ → Option ℕ
unfolding granularity
unwrap value decimals = elim (granularity decimals) [
  | none ↦ none
  | some unit ↦ if unit == 0 then none else some (value / unit % u128_mod)
]

pub wrap : ℕ → ℕ → Option U256
unfolding granularity
wrap value decimals = elim (granularity decimals) [
  | none ↦ none
  | some unit ↦ checked_mul u256_mod value unit
]

-- `T::Currency::transfer` with and without `KeepAlive`, the account of the pallet, and the decimals
-- of the native currency.
pub record Native (S : Type 0) : Type 0 where
  pub transfer_allow_death : AccountId → AccountId → ℕ → Dispatch S
  pub transfer_keep_alive : AccountId → AccountId → ℕ → Dispatch S
  pub account_id : AccountId
  pub decimals : ℕ

module _ {S : Type 0} (app : App S) (native : Native S) where
  -- `OutboundPayload::encode`
  pub encode : AccountId → H160 → U256 → Bytes
  encode sender recipient amount = app.encode_function "mint(bytes32,address,uint256)" (
      Token.fixed_bytes (app.encode_account sender)
      ∷ Token.address recipient
      ∷ Token.uint amount
      ∷ [])

  unfoldable pub lock : Origin → ChannelId → H160 → ℕ → Dispatch S
  lock origin channel_id recipient amount = transactional (do
    who ← ensure_signed origin
    native.transfer_allow_death who native.account_id amount
    amount_wrapped ←
        ok_or (wrap amount native.decimals) (DispatchError.dot_app DotAppError.overflow)
    address ← gets app.address.get
    app.router.submit channel_id who address (encode who recipient amount_wrapped)
    deposit_event)

  unfoldable pub unlock : Origin → H160 → ℕ → U256 → Dispatch S
  unlock origin sender recipient amount = transactional (do
    ensure_peer app origin
    amount_unwrapped ←
        ok_or (unwrap amount native.decimals) (DispatchError.dot_app DotAppError.overflow)
    who ← lookup_or_fail app recipient
    native.transfer_keep_alive native.account_id who amount_unwrapped
    deposit_event)

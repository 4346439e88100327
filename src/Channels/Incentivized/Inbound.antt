-- ===== src/Channels/Incentivized/Inbound.antt =====
-- parachain/pallets/incentivized-channel/src/inbound: as the basic channel, and the relayer of a
-- message is paid from the fee that was locked with it.
pub mod Fee
pub mod Cases
pub mod Order
use polkadot_ethereum.Frame.{
  ◌>>=◌, ◌>>◌, InboundError, DispatchError, err, Origin, DispatchError, DispatchError, Result,
  InboundError, Dispatch, InboundError, ok, Call, Part, ensure_signed, ensure, modify, ok_or, gets,
}
use polkadot_ethereum.Core.{Bytes, H160, ChannelId, U256, AccountId, Message, MessageId}
use polkadot_ethereum.Prelude.{
  ℕ, ◌%◌, none, ◌+◌, List, Bool, Option, ◌∷◌, ◌==◌, if◌then◌else◌, some,
}
use polkadot_ethereum.Contracts.{Token, Token, MessageDispatch, Verifier, Token, Token}
use polkadot_ethereum.Ethereum.{Log}
use polkadot_ethereum.Prelude.Word.{u64_mod}

-- `RewardFraction` is a `Perbill`, as its number of billionths.
pub record Inbound : Type 0 where
  pub source_channel : H160
  pub nonce : ℕ
  pub reward_fraction : ℕ

pub record Envelope : Type 0 where
  pub channel : H160
  pub source : H160
  pub nonce : ℕ
  pub fee : ℕ
  pub payload : Bytes

-- `Envelope::try_from`, past `EVENT_ABI.decode`
abbrev pub envelope_of : (U256 → ℕ) → H160 → List Token → Option Envelope
envelope_of convert channel
      (Token.address source ∷ Token.uint value ∷ Token.uint fee ∷ Token.byte_string payload ∷ _) =
    some (record {
      channel = channel;
      source = source;
      nonce = value % u64_mod;
      fee = convert fee;
      payload = payload;
    })
envelope_of _ _ _ = none

-- The calls of `frame_support::traits::Currency` that are made. An imbalance is its amount; `same` is
-- `imbalance.offset(rewarded).same()`.
pub record Currency (S : Type 0) : Type 0 where
  pub withdraw : AccountId → ℕ → Dispatch S
  pub deposit_into_existing : AccountId → ℕ → Call S ℕ
  pub resolve_creating : AccountId → ℕ → S → S
  pub same : ℕ → ℕ → Option ℕ

pub record Config (S : Type 0) : Type 0 where
  pub inbound : Part S Inbound
  pub verifier : Verifier S
  pub dispatcher : MessageDispatch S
  pub decode_event : Log → Option (List Token)
  pub currency : Currency S
  pub source_account : AccountId
  pub treasury_account : AccountId
  pub fee_converter : U256 → ℕ
  pub update_origin : Origin → Bool
  pub mul_ceil : ℕ → ℕ → ℕ

module _ {S : Type 0} (c : Config S) where
  unfoldable pub try_from : Log → Option Envelope
  try_from log = elim (c.decode_event log) [
    | none ↦ none
    | some tokens ↦ envelope_of c.fee_converter log.address tokens
  ]

  -- What is paid to the relayer: nothing where there is no such account.
  abbrev pub rewarded_amount : Result DispatchError ℕ → ℕ
  rewarded_amount (ok amount) = amount
  rewarded_amount (err _) = 0

  -- The reward, and the rest for the treasury.
  unfoldable pub pay_out : ℕ → AccountId → S → S
  pay_out amount relayer s =
      let reward = c.mul_ceil (c.inbound.get s).reward_fraction amount in
      let (rewarded, s') = c.currency.deposit_into_existing relayer reward s in
      elim (c.currency.same amount (rewarded_amount rewarded)) [
        | none ↦ s'
        | some adjusted ↦ c.currency.resolve_creating c.treasury_account adjusted s'
      ]

  unfoldable pub handle_fee : ℕ → AccountId → S → S
  unfolding pay_out
  handle_fee amount relayer s =
      let (withdrawn, s') = c.currency.withdraw c.source_account amount s in
      if amount == 0 then s else elim withdrawn [ ok _ ↦ pay_out amount relayer s' | err _ ↦ s' ]

  unfoldable pub submit : Origin → Message → Dispatch S
  submit origin message = do
    relayer ← ensure_signed origin
    log ← c.verifier.verify message
    envelope ←
        ok_or (try_from log) (DispatchError.incentivized_inbound InboundError.invalid_envelope)
    source_channel ← gets (λ s. (c.inbound.get s).source_channel)
    ensure (envelope.channel == source_channel)
        (DispatchError.incentivized_inbound InboundError.invalid_source_channel)
    nonce ← gets (λ s. (c.inbound.get s).nonce)
    ensure (envelope.nonce == (nonce + 1) % u64_mod)
        (DispatchError.incentivized_inbound InboundError.invalid_nonce)
    modify (λ s. c.inbound.put (record (c.inbound.get s) { nonce = (nonce + 1) % u64_mod }) s)
    modify (handle_fee envelope.fee relayer)
    let message_id : MessageId = record {
      channel_id = ChannelId.incentivized;
      nonce = envelope.nonce;
    }
    modify (c.dispatcher.dispatch envelope.source message_id envelope.payload)

  unfoldable pub set_reward_fraction : Origin → ℕ → Dispatch S
  set_reward_fraction origin fraction = do
    ensure (c.update_origin origin) DispatchError.bad_origin
    modify (λ s. c.inbound.put (record (c.inbound.get s) { reward_fraction = fraction }) s)

-- ===== src/Channels/Basic/Inbound.antt =====
-- parachain/pallets/basic-channel/src/inbound: messages from Ethereum, in the order of their nonces.
-- The nonce is a `u64` that wraps around, as in a build without overflow checks.
pub mod Cases
pub mod Order
use polkadot_ethereum.Frame.{◌>>=◌, ◌>>◌, ensure_signed, ok_or, gets, ensure, modify}
use polkadot_ethereum.Frame.{
  Dispatch, Origin, InboundError, DispatchError, Part, InboundError, InboundError,
}
use polkadot_ethereum.Core.{Bytes, ChannelId, H160, MessageId, Message}
use polkadot_ethereum.Contracts.{Token, MessageDispatch, Token, Verifier, Token, Token}
use polkadot_ethereum.Prelude.{◌∷◌, ◌%◌, ℕ, ◌+◌, Option, ◌==◌, List, none, some}
use polkadot_ethereum.Ethereum.{Log}
use polkadot_ethereum.Prelude.Word.{u64_mod}

pub record Inbound : Type 0 where
  pub source_channel : H160
  pub nonce : ℕ

pub record Envelope : Type 0 where
  pub channel : H160
  pub source : H160
  pub nonce : ℕ
  pub payload : Bytes

-- `Envelope::try_from`, past `EVENT_ABI.decode`
abbrev pub envelope_of : H160 → List Token → Option Envelope
envelope_of channel (Token.address source ∷ Token.uint value ∷ Token.byte_string payload ∷ _) =
    some (record { channel = channel; source = source; nonce = value % u64_mod; payload = payload })
envelope_of _ _ = none

-- The verifier and the dispatch are the pallet's `Config`; `decode_event` is `EVENT_ABI.decode`.
pub record Config (S : Type 0) : Type 0 where
  pub inbound : Part S Inbound
  pub verifier : Verifier S
  pub dispatcher : MessageDispatch S
  pub decode_event : Log → Option (List Token)

module _ {S : Type 0} (c : Config S) where
  unfoldable pub try_from : Log → Option Envelope
  try_from log = elim (c.decode_event log) [
    | none ↦ none
    | some tokens ↦ envelope_of log.address tokens
  ]

  unfoldable pub submit : Origin → Message → Dispatch S
  submit origin message = do
    _ ← ensure_signed origin
    log ← c.verifier.verify message
    envelope ← ok_or (try_from log) (DispatchError.basic_inbound InboundError.invalid_envelope)
    source_channel ← gets (λ s. (c.inbound.get s).source_channel)
    ensure (envelope.channel == source_channel)
        (DispatchError.basic_inbound InboundError.invalid_source_channel)
    nonce ← gets (λ s. (c.inbound.get s).nonce)
    ensure (envelope.nonce == (nonce + 1) % u64_mod)
        (DispatchError.basic_inbound InboundError.invalid_nonce)
    modify (λ s. c.inbound.put (record (c.inbound.get s) { nonce = (nonce + 1) % u64_mod }) s)
    let message_id : MessageId = record { channel_id = ChannelId.basic; nonce = envelope.nonce }
    modify (c.dispatcher.dispatch envelope.source message_id envelope.payload)

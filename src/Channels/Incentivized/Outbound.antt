-- ===== src/Channels/Incentivized/Outbound.antt =====
-- parachain/pallets/incentivized-channel/src/outbound: messages to Ethereum are paid for, queued,
-- numbered, and committed together every `Interval` blocks.
pub mod Submit
pub mod Order
use polkadot_ethereum.Contracts.{tuple, no_tokens, and_token}
use polkadot_ethereum.Frame.{
  ◌>>=◌, ◌>>◌, err, DispatchError, DispatchError, Dispatch, BasicOutboundError, DispatchError,
  BasicOutboundError, DispatchError, BasicOutboundError, ok, Origin, BasicOutboundError, ensure,
  gets, ok_or, modify, deposit_event, IncentivizedOutboundError, IncentivizedOutboundError, Part,
  IncentivizedOutboundError, IncentivizedOutboundError, map_err,
}
use polkadot_ethereum.Contracts.{Token, Tokens, Token, Token, Token, Token}
use polkadot_ethereum.Prelude.{
  ◌/◌, List, ◌++◌, Bool, Option, ℕ, ◌%◌, ◌==◌, ◌+◌, ◌∷◌, if◌then◌else◌, [], length, ltb, leb,
}
use polkadot_ethereum.Core.{
  AuxiliaryDigestItem, ChannelId, H256, AccountId, H160, Bytes, ChannelId, AuxiliaryDigestItem,
  U256,
}
use polkadot_ethereum.Prelude.Word.{checked_add, u64_mod}

pub record QueuedMessage : Type 0 where
  pub target : H160
  pub nonce : ℕ
  pub fee : U256
  pub payload : Bytes

-- The storage of the pallet, and what `commit` writes for it into the block's digest and off chain.
-- `Interval` counts blocks.
pub record Outbound : Type 0 where
  pub interval : ℕ
  pub message_queue : List QueuedMessage
  pub nonce : ℕ
  pub fee : U256
  pub digest : List AuxiliaryDigestItem
  pub offchain : List (Bytes × List QueuedMessage)

-- The pallet's `Config`: where its storage lies, the limits, `T::FeeCurrency::withdraw`; `abi_encode` is `ethabi::encode`, `key_of` encodes the prefix, the channel
-- and the hash, and `hash` is `T::Hashing::hash`. The off-chain index holds the messages themselves,
-- not their encoding.
pub record Config (S : Type 0) : Type 0 where
  pub outbound : Part S Outbound
  pub max_message_payload_size : ℕ
  pub max_messages_per_commit : ℕ
  pub withdraw_fee : AccountId → U256 → Dispatch S
  pub set_fee_origin : Origin → Bool
  pub abi_encode : Tokens → Bytes
  pub hash : Bytes → H256
  pub key_of : ChannelId → H256 → Bytes

abbrev pub message_token : QueuedMessage → Token
message_token message = tuple (
    and_token (Token.address message.target) (
      and_token (Token.uint message.nonce) (
        and_token (Token.uint message.fee)
          (and_token (Token.byte_string message.payload) no_tokens))))

abbrev pub message_tokens : List QueuedMessage → Tokens
message_tokens [] = no_tokens
message_tokens (message ∷ messages) = and_token (message_token message) (message_tokens messages)

-- `fold(0, |acc, x| acc + x.payload.len())`
unfoldable pub payload_bytes : ℕ → List QueuedMessage → ℕ
payload_bytes acc [] = acc
payload_bytes acc (message ∷ messages) = payload_bytes (acc + length message.payload) messages

-- `usize` sums of what fits in memory do not overflow; `commit` calls this on a queue that is not
-- empty.
pub average_payload_size : List QueuedMessage → ℕ
unfolding payload_bytes
average_payload_size messages = payload_bytes 0 messages / length messages + 1

module _ {S : Type 0} (c : Config S) where
  pub make_commitment_hash : List QueuedMessage → H256
  make_commitment_hash messages =
      c.hash (c.abi_encode (and_token (Token.array (message_tokens messages)) no_tokens))

  -- `commit`, past `MessageQueue::take()`
  abbrev pub commit_messages : List QueuedMessage → Outbound → Outbound
  commit_messages [] s = s
  commit_messages (m ∷ ms) s =
      let commitment_hash = make_commitment_hash (m ∷ ms) in
      record s {
        digest =
            s.digest ++ AuxiliaryDigestItem.commitment ChannelId.incentivized commitment_hash ∷ [];
        offchain = s.offchain ++ (c.key_of ChannelId.incentivized commitment_hash, m ∷ ms) ∷ [];
      }

  unfoldable pub commit : Outbound → Outbound
  commit s = commit_messages s.message_queue (record s { message_queue = [] })

  -- A zero interval makes `%` abort.
  unfoldable pub on_initialize : ℕ → Dispatch Outbound
  on_initialize now s =
      if s.interval == 0
      then (err DispatchError.panic, s)
      else if now % s.interval == 0
      then (ok tt, commit s)
      else (ok tt, s)

  -- The calls of the pallet, over the storage of the chain.
  unfoldable pub set_fee : Origin → U256 → Dispatch S
  set_fee origin amount = do
    ensure (c.set_fee_origin origin) DispatchError.bad_origin
    modify (λ s. c.outbound.put (record (c.outbound.get s) { fee = amount }) s)

  -- `submit`, past the checks and the new nonce: a fee that cannot be charged is `NoFunds`, and
  -- `try_mutate` then does not write the nonce.
  unfoldable pub submit : AccountId → H160 → Bytes → Dispatch S
  submit who target payload = do
    before ← gets c.outbound.get
    ensure (ltb (length before.message_queue) c.max_messages_per_commit)
        (DispatchError.incentivized_outbound IncentivizedOutboundError.queue_size_limit_reached)
    ensure (leb (length payload) c.max_message_payload_size)
        (DispatchError.incentivized_outbound IncentivizedOutboundError.payload_too_large)
    next ←
        ok_or (checked_add u64_mod before.nonce 1)
          (DispatchError.incentivized_outbound IncentivizedOutboundError.overflow)
    map_err (DispatchError.incentivized_outbound IncentivizedOutboundError.no_funds)
        (c.withdraw_fee who before.fee)
    modify (λ s.
        let now = c.outbound.get s in
        c.outbound.put
          (record now {
            nonce = next;
            message_queue =
                now.message_queue
                ++ record { target = target; nonce = next; fee = before.fee; payload = payload }
                  ∷ [];
          })
          s)
    deposit_event

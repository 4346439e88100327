-- ===== src/Channels/Basic/Outbound.antt =====
-- parachain/pallets/basic-channel/src/outbound: messages to Ethereum are queued, numbered, and
-- committed together every `Interval` blocks.
pub mod Submit
pub mod Order
use polkadot_ethereum.Contracts.{tuple, no_tokens, and_token}
use polkadot_ethereum.Frame.{
  ◌>>=◌, ◌>>◌, err, DispatchError, DispatchError, Dispatch, BasicOutboundError, DispatchError,
  BasicOutboundError, DispatchError, BasicOutboundError, ok, Origin, BasicOutboundError, ensure,
  gets, ok_or, modify, deposit_event,
}
use polkadot_ethereum.Contracts.{Token, Tokens, Token, Token, Token, Token}
use polkadot_ethereum.Prelude.{
  ◌/◌, List, ◌++◌, Bool, Option, ℕ, ◌%◌, ◌==◌, ◌+◌, ◌∷◌, if◌then◌else◌, [], length, ltb, leb,
}
use polkadot_ethereum.Core.{
  AuxiliaryDigestItem, ChannelId, H256, AccountId, H160, Bytes, ChannelId, AuxiliaryDigestItem,
}
use polkadot_ethereum.Prelude.Word.{checked_add, u64_mod}

pub record QueuedMessage : Type 0 where
  pub target : H160
  pub nonce : ℕ
  pub payload : Bytes

-- The storage of the pallet, and what `commit` writes for it into the block's digest and off chain.
-- `Interval` counts blocks.
pub record Outbound : Type 0 where
  pub interval : ℕ
  pub message_queue : List QueuedMessage
  pub principal : AccountId
  pub nonce : ℕ
  pub digest : List AuxiliaryDigestItem
  pub offchain : List (Bytes × List QueuedMessage)

-- The pallet's `Config`; `abi_encode` is `ethabi::encode`, `key_of` encodes the prefix, the channel
-- and the hash, and `hash` is `T::Hashing::hash`. The off-chain index holds the messages themselves,
-- not their encoding.
pub record Config : Type 0 where
  pub max_message_payload_size : ℕ
  pub max_messages_per_commit : ℕ
  pub set_principal_origin : Origin → Bool
  pub lookup_account : ℕ → Option AccountId
  pub abi_encode : Tokens → Bytes
  pub hash : Bytes → H256
  pub key_of : ChannelId → H256 → Bytes

abbrev pub message_token : QueuedMessage → Token
message_token message = tuple (
    and_token (Token.address message.target) (
      and_token (Token.uint message.nonce)
        (and_token (Token.byte_string message.payload) no_tokens)))

abbrev pub message_tokens : List QueuedMessage → Tokens
message_tokens [] = no_tokens
message_tokens (message ∷ messages) = and_token (message_token message) (message_tokens messages)

-- `fold(0, |acc, x| acc + x.payload.len())`
unfoldable pub payload_bytes : ℕ → List QueuedMessage → ℕ
payload_bytes acc [] = acc
payload_bytes acc (message ∷ messages) = payload_bytes (acc + length message.payload) messages

-- `usize` sums of what fits in memory do not overflow; `commit` calls this on a queue that is not
-- empty.
pub average_payload_size : List QueuedMessage → ℕ
unfolding payload_bytes
average_payload_size messages = payload_bytes 0 messages / length messages + 1

module _ (c : Config) where
  pub make_commitment_hash : List QueuedMessage → H256
  make_commitment_hash messages =
      c.hash (c.abi_encode (and_token (Token.array (message_tokens messages)) no_tokens))

  -- `commit`, past `MessageQueue::take()`
  abbrev pub commit_messages : List QueuedMessage → Outbound → Outbound
  commit_messages [] s = s
  commit_messages (m ∷ ms) s =
      let commitment_hash = make_commitment_hash (m ∷ ms) in
      record s {
        digest = s.digest ++ AuxiliaryDigestItem.commitment ChannelId.basic commitment_hash ∷ [];
        offchain = s.offchain ++ (c.key_of ChannelId.basic commitment_hash, m ∷ ms) ∷ [];
      }

  unfoldable pub commit : Outbound → Outbound
  commit s = commit_messages s.message_queue (record s { message_queue = [] })

  -- A zero interval makes `%` abort.
  unfoldable pub on_initialize : ℕ → Dispatch Outbound
  on_initialize now s =
      if s.interval == 0
      then (err DispatchError.panic, s)
      else if now % s.interval == 0
      then (ok tt, commit s)
      else (ok tt, s)

  unfoldable pub set_principal : Origin → ℕ → Dispatch Outbound
  set_principal origin principal = do
    ensure (c.set_principal_origin origin) DispatchError.bad_origin
    who ← ok_or (c.lookup_account principal) DispatchError.cannot_lookup
    modify (λ s. record s { principal = who })

  unfoldable pub submit : AccountId → H160 → Bytes → Dispatch Outbound
  submit who target payload = do
    principal ← gets (λ s. s.principal)
    ensure (who == principal) (DispatchError.basic_outbound BasicOutboundError.not_authorized)
    queued ← gets (λ s. length s.message_queue)
    ensure (ltb queued c.max_messages_per_commit)
        (DispatchError.basic_outbound BasicOutboundError.queue_size_limit_reached)
    ensure (leb (length payload) c.max_message_payload_size)
        (DispatchError.basic_outbound BasicOutboundError.payload_too_large)
    nonce ← gets (λ s. s.nonce)
    next ←
        ok_or (checked_add u64_mod nonce 1)
          (DispatchError.basic_outbound BasicOutboundError.overflow)
    modify (λ s. record s {
      nonce = next;
      message_queue =
          s.message_queue ++ record { target = target; nonce = next; payload = payload } ∷ [];
    })
    deposit_event

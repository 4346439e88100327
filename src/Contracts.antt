-- ===== src/Contracts.antt =====
-- What the channels need of other components: parachain/primitives/core/src/lib.rs.
pub mod LightClientVerifier
use polkadot_ethereum.Frame.{Dispatch, Call}
use polkadot_ethereum.Core.{U256, H160, AccountId, Bytes, MessageId, Message, ChannelId}
use polkadot_ethereum.Ethereum.{Log}
use polkadot_ethereum.Prelude.{◌≡◌, List}

-- `ethabi::Token`, the cases that the source uses
mutual
  pub data Token : Type 0 where
    address : H160 → Token
    uint : U256 → Token
    fixed_bytes : Bytes → Token
    byte_string : Bytes → Token
    tuple : Tokens → Token
    array : Tokens → Token

  -- `Vec<Token>`
  pub data Tokens : Type 0 where
    no_tokens : Tokens
    and_token : Token → Tokens → Tokens

-- `trait Verifier`. A verification only reads.
pub record Verifier (S : Type 0) : Type 0 where
  pub verify : Message → Call S Log
  pub reads : (message : Message) (s : S) → (verify message s).1 ≡ s

-- `trait MessageDispatch`: it returns nothing, whatever becomes of the message.
pub record MessageDispatch (S : Type 0) : Type 0 where
  pub dispatch : H160 → MessageId → Bytes → S → S

-- `trait OutboundRouter`
pub record OutboundRouter (S : Type 0) : Type 0 where
  pub submit : ChannelId → AccountId → H160 → Bytes → Dispatch S

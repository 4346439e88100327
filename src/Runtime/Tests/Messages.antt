-- ===== src/Runtime/Tests/Messages.antt =====
-- Messages from Ethereum at the chain of the tests.
use polkadot_ethereum.Prelude.{ℕ, [], ◌∷◌, refl, arith, ◌≡◌, ◌<◌, ◌+◌, zero, suc, find}
use polkadot_ethereum.Prelude.Optional.{traverse}
use polkadot_ethereum.Prelude.Word.{u256_mod}
use polkadot_ethereum.Prelude.Eq.{nat_eq, pair_eq}
use polkadot_ethereum.Prelude.Map.{lookup, insert}
use polkadot_ethereum.Frame.{Origin, ok, err, DispatchError, InboundError}
use polkadot_ethereum.Core.{AssetId, Bytes, asset_eq, Message, ChannelId}
use polkadot_ethereum.Ethereum.{Log, log_beq}
use polkadot_ethereum.Ethereum.Decode.{decode_log, decode_receipt, contains_log}
use polkadot_ethereum.Ethereum.Mpt.{apply_merkle_proof, apply_from_leaf, decode_short, fold_proof}
use polkadot_ethereum.Ethereum.Hashing
use polkadot_ethereum.Assets.{balance, total_issuance}
use polkadot_ethereum.Assets.Calls.{build}
use polkadot_ethereum.LightClient.Validate.{verify, verify_receipt_inclusion}
use polkadot_ethereum.Channels.Basic.Inbound as BasicInbound
use polkadot_ethereum.Channels.Basic.Inbound.Cases.{Delivers}
use polkadot_ethereum.Runtime.{rococo}
use polkadot_ethereum.Runtime.Calls.{basic_inbound_submit}
use polkadot_ethereum.Runtime.Ether.{SameEther, deliver-SameEther}
use polkadot_ethereum.Runtime.Refused.{IsCouncil}
use polkadot_ethereum.Runtime.Stranger.{Untouched, deliver-Untouched}
use polkadot_ethereum.Runtime.Relay.{submit-eth_mint}
use polkadot_ethereum.Runtime.Run.{execute, deliver, verifier, basic_inbound_config}
use polkadot_ethereum.Runtime.Tests.{external, external-KeepsAccount, start, start-IsSound}

-- The ERC20 application's contract sends a message that would mint ether.
deliver-SameEther_example : SameEther start (
    (deliver rococo external).dispatch 66
      (record { channel_id = ChannelId.basic; nonce = 4 })
      []
      start)
deliver-SameEther_example =
    deliver-SameEther rococo external 66 (record { channel_id = ChannelId.basic; nonce = 4 }) []
      start external-KeepsAccount (λ e. ground (arith, e))

external-IsCouncil : IsCouncil external
external-IsCouncil = record { refuses = λ account. refl }

deliver-Untouched_example : Untouched start (
    (deliver rococo external).dispatch 9
      (record { channel_id = ChannelId.basic; nonce = 4 })
      []
      start)
deliver-Untouched_example =
    deliver-Untouched rococo external 9 (record { channel_id = ChannelId.basic; nonce = 4 }) []
      start external-KeepsAccount external-IsCouncil
      (record {
        not_dot = λ e. ground (arith, e);
        not_eth = λ e. ground (arith, e);
        not_erc20 = λ e. ground (arith, e);
        not_erc721 = λ e. ground (arith, e);
      })

abbrev zeros : ℕ → Bytes
zeros zero = []
zeros (suc n) = 0 ∷ zeros n

abbrev message : Message
message = record {
  raw = zeros 256;
  proof = record { block_hash = 1007; tx_index = 0; keys = []; values = zeros 256 ∷ [] };
}

abbrev log : Log
log = record { address = 0; topics = zeros 4; body = zeros 256 }

abbrev envelope : BasicInbound.Envelope
envelope = record { channel = 0; source = 65; nonce = 4; payload = [] }

message_verified : ((verifier rococo external).verify message start).0 ≡ ok log
unfolding verify verify_receipt_inclusion lookup decode_log decode_receipt contains_log
    Hashing.check_receipt_proof apply_merkle_proof apply_from_leaf decode_short fold_proof traverse
    find log_beq
message_verified = refl

message-Delivers :
    Delivers
      (basic_inbound_config rococo external (deliver rococo external))
      (Origin.signed 7)
      message
      start
      envelope
unfolding BasicInbound.try_from
message-Delivers = record {
  sender = 7;
  signed_by = refl;
  log = log;
  verified = message_verified;
  decoded = refl;
  from_channel = refl;
  next = refl;
}

small : total_issuance AssetId.eth start.assets + 30 < u256_mod
unfolding total_issuance build lookup insert
small = omega arith

submit-eth_mint_example :
    let r = execute rococo external (basic_inbound_submit message) (Origin.signed 7) start in
    (r.0 ≡ ok tt)
    × (balance AssetId.eth 1 r.1.assets ≡ balance AssetId.eth 1 start.assets + 30)
    × (total_issuance AssetId.eth r.1.assets ≡ total_issuance AssetId.eth start.assets + 30)
    × (r.1.basic_inbound.nonce ≡ 4)
    × ((execute rococo external (basic_inbound_submit message) (Origin.signed 7) r.1).0
        ≡ err (DispatchError.basic_inbound InboundError.invalid_nonce))
submit-eth_mint_example =
    submit-eth_mint rococo external (Origin.signed 7) message envelope 9 1 1 30 start start-IsSound
      message-Delivers refl refl refl small

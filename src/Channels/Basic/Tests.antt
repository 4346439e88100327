-- ===== src/Channels/Basic/Tests.antt =====
-- The basic channel at small inputs. The storage of the chain is that of the pallet under test.
use polkadot_ethereum.Prelude.{false, ◌∷◌, arith, ◌≡◌, some, List, ◌%◌, refl, ◌+◌, ◌↔◌, [], length}
use polkadot_ethereum.Channels.Basic.Inbound.Order.{Run, KeepsNonce, inbound_order}
use polkadot_ethereum.Channels.Basic.Inbound.{Inbound, Inbound, submit, try_from}
use polkadot_ethereum.Core.{Message, MessageId, ChannelId}
use polkadot_ethereum.Channels.Journal.{Consecutive}
use polkadot_ethereum.Frame.{ok, err, Part, Origin, DispatchError}
use polkadot_ethereum.Channels.Basic.Outbound.Order.{
  IsOutbound, run-IsOutbound, Operation, submits, run, initializes,
}
use polkadot_ethereum.Contracts.{Token, Token, Token}
use polkadot_ethereum.Channels.Basic.Outbound.Submit.{Accepts, queued, submit_iff}
use polkadot_ethereum.Channels.Basic.Outbound.{Outbound, Outbound, Outbound}
use polkadot_ethereum.Prelude.Word.{u64_mod}
use polkadot_ethereum.Channels.Basic.Inbound
use polkadot_ethereum.Channels.Basic.Outbound
use polkadot_ethereum.Channels.Basic.Inbound.Order.{done, submits, Run}

abbrev whole : {S : Type 0} → Part S S
whole = record { get = λ s. s; put = λ p s. p; get_put = λ p s. refl; put_get = λ s. refl }

-- Every message is verified, with a log of the channel 7 that carries the nonce 4.
abbrev inbound_config : Inbound.Config Inbound
inbound_config = record {
  inbound = whole;
  verifier = record {
    verify = λ message s. (ok (record { address = 7; topics = []; body = [] }), s);
    reads = λ message s. refl;
  };
  dispatcher = record { dispatch = λ source id payload s. s };
  decode_event = λ log. some (Token.address 5 ∷ Token.uint 4 ∷ Token.byte_string [] ∷ []);
}

abbrev at_3 : Inbound
at_3 = record { source_channel = 7; nonce = 3 }

abbrev message : Message
message = record {
  raw = [];
  proof = record { block_hash = 0; tx_index = 0; keys = []; values = [] };
}

abbrev id_4 : MessageId
id_4 = record { channel_id = ChannelId.basic; nonce = 4 }

dispatch-KeepsNonce : KeepsNonce inbound_config
dispatch-KeepsNonce = record { keeps = λ source id payload s. refl }

-- The message is submitted twice, and dispatched once.
two_submissions : Run inbound_config (at_3, []) (record at_3 { nonce = 4 }, id_4 ∷ [])
unfolding Inbound.submit Inbound.try_from
two_submissions = submits (Origin.signed 1) message (submits (Origin.signed 2) message done)

inbound_order_example :
    Consecutive ChannelId.basic 3 (id_4 ∷ []) 4 × (4 ≡ (3 + length (id_4 ∷ [])) % u64_mod)
inbound_order_example =
    inbound_order inbound_config at_3 (record at_3 { nonce = 4 }) (id_4 ∷ []) dispatch-KeepsNonce
      (omega arith) two_submissions

abbrev outbound_config : Outbound.Config
outbound_config = record {
  max_message_payload_size = 256;
  max_messages_per_commit = 20;
  set_principal_origin = λ origin. false;
  lookup_account = λ source. some source;
  abi_encode = λ tokens. [];
  hash = λ bytes. 0;
  key_of = λ channel hash. [];
}

abbrev fresh : Outbound
fresh = record {
  interval = 10;
  message_queue = [];
  principal = 1;
  nonce = 0;
  digest = [];
  offchain = [];
}

submit_iff_example :
    (((Outbound.submit outbound_config 1 9 (3 ∷ []) fresh).0 ≡ ok tt)
      ↔ Accepts outbound_config 1 (3 ∷ []) fresh)
    × (Accepts outbound_config 1 (3 ∷ []) fresh
        → (Outbound.submit outbound_config 1 9 (3 ∷ []) fresh).1
          ≡ queued outbound_config 9 (3 ∷ []) fresh)
    × ((e : DispatchError)
        → (Outbound.submit outbound_config 1 9 (3 ∷ []) fresh).0 ≡ err e
        → (Outbound.submit outbound_config 1 9 (3 ∷ []) fresh).1 ≡ fresh)
submit_iff_example = submit_iff outbound_config 1 9 (3 ∷ []) fresh

fresh-IsOutbound : IsOutbound outbound_config 0 fresh
fresh-IsOutbound = record {
  numbered = refl;
  queue_fits = omega arith;
  payloads_fit = tt;
  nonce_fits = omega arith;
}

abbrev day : List Operation
day =
    Operation.submits 1 9 (3 ∷ [])
    ∷ initializes 10
    ∷ Operation.submits 2 9 []
    ∷ Operation.submits 1 9 []
    ∷ []

run-IsOutbound_example : IsOutbound outbound_config 0 (run outbound_config day fresh)
run-IsOutbound_example = run-IsOutbound outbound_config 0 day fresh fresh-IsOutbound

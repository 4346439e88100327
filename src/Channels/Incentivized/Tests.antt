-- ===== src/Channels/Incentivized/Tests.antt =====
-- The incentivized channel at small inputs.
use polkadot_ethereum.Channels.Incentivized.Inbound
use polkadot_ethereum.Channels.Incentivized.Outbound
use polkadot_ethereum.Channels.Incentivized.Inbound.Order.{
  submits, done, recorded, nonce_of, KeepsNonce, incentivized_inbound_order,
}
use polkadot_ethereum.Channels.Incentivized.Outbound.{Outbound, Outbound, Outbound}
use polkadot_ethereum.Prelude.{
  some, ◌==◌, refl, ◌/◌, none, ◌+◌, ◌-◌, ℕ, arith, false, ◌≡◌, if◌then◌else◌, [], leb, ◌∷◌, ◌%◌,
  length,
}
use polkadot_ethereum.Channels.Incentivized.Inbound.{Inbound, Inbound}
use polkadot_ethereum.Frame.{DispatchError, ok, DispatchError, err, Dispatch, Origin}
use polkadot_ethereum.Core.{AccountId, Message, ChannelId}
use polkadot_ethereum.Channels.Incentivized.Inbound.{handle_fee}
use polkadot_ethereum.Channels.Journal.{Consecutive, Recorded}
use polkadot_ethereum.Contracts.{Token, Token, Token}
use polkadot_ethereum.Prelude.Word.{u64_mod}

-- Free balances, besides the storage of the inbound side.
abbrev Chain : Type 0
Chain = Inbound × (AccountId → ℕ)

abbrev add_to : AccountId → ℕ → (AccountId → ℕ) → AccountId → ℕ
add_to who amount free a = free a + (if who == a then amount else 0)

abbrev take_from : AccountId → ℕ → (AccountId → ℕ) → AccountId → ℕ
take_from who amount free a = free a - (if who == a then amount else 0)

abbrev pay_from : AccountId → ℕ → Dispatch Chain
pay_from who amount (i, free) =
    if leb amount (free who)
    then (ok tt, (i, take_from who amount free))
    else (err DispatchError.panic, (i, free))

abbrev config : Inbound.Config Chain
config = record {
  inbound = record {
    get = λ s. s.0;
    put = λ p s. (p, s.1);
    get_put = λ p s. refl;
    put_get = λ s. refl;
  };
  verifier = record {
    verify = λ message s. (ok (record { address = 7; topics = []; body = [] }), s);
    reads = λ message s. refl;
  };
  dispatcher = record { dispatch = λ source id payload s. s };
  decode_event =
      λ log. some (Token.address 5 ∷ Token.uint 4 ∷ Token.uint 10 ∷ Token.byte_string [] ∷ []);
  currency = record {
    withdraw = pay_from;
    deposit_into_existing = λ who amount s. (ok amount, (s.0, add_to who amount s.1));
    resolve_creating = λ who amount s. (s.0, add_to who amount s.1);
    same = λ a b. if leb b a then some (a - b) else none;
  };
  source_account = 1;
  treasury_account = 2;
  fee_converter = λ fee. fee;
  update_origin = λ origin. false;
  mul_ceil = λ fraction amount. amount / 2;
}

abbrev free_of : AccountId → Chain → ℕ
free_of a s = s.1 a

abbrev rich : Chain
rich = (record { source_channel = 0; nonce = 0; reward_fraction = 1 }, λ a. 100)

config-KeepsNonce : KeepsNonce config
config-KeepsNonce = record {
  keeps = λ source id payload s. refl;
  withdraw_keeps = λ who amount s. ground arith;
  deposit_keeps = λ who amount s. refl;
  resolve_keeps = λ who amount s. refl;
}

abbrev at_3 : Chain
at_3 = (record { source_channel = 7; nonce = 3; reward_fraction = 1 }, λ a. 100)

abbrev message : Message
message = record {
  raw = [];
  proof = record { block_hash = 0; tx_index = 0; keys = []; values = [] };
}

-- The message is submitted by two relayers.
abbrev end : Recorded Chain
end =
    (Inbound.submit (recorded config) (Origin.signed 4) message
      (Inbound.submit (recorded config) (Origin.signed 3) message (at_3, [])).1).1

incentivized_inbound_order_example :
    Consecutive ChannelId.incentivized 3 end.1 (nonce_of config end.0)
    × (nonce_of config end.0 ≡ (3 + length end.1) % u64_mod)
incentivized_inbound_order_example =
    incentivized_inbound_order config at_3 end.0 end.1 config-KeepsNonce (omega arith)
      (submits (Origin.signed 3) message (submits (Origin.signed 4) message done))

end_ids : end.1 ≡ record { channel_id = ChannelId.incentivized; nonce = 4 } ∷ []
unfolding Inbound.submit Inbound.try_from Inbound.handle_fee Inbound.pay_out
end_ids = refl

-- The fee is paid by a counter beside the storage of the outbound side.
abbrev outbound_config : Outbound.Config (Outbound × ℕ)
outbound_config = record {
  outbound = record {
    get = λ s. s.0;
    put = λ p s. (p, s.1);
    get_put = λ p s. refl;
    put_get = λ s. refl;
  };
  max_message_payload_size = 256;
  max_messages_per_commit = 20;
  withdraw_fee = λ who amount s.
      if leb amount s.1 then (ok tt, (s.0, s.1 - amount)) else (err DispatchError.panic, s);
  set_fee_origin = λ origin. false;
  abi_encode = λ tokens. [];
  hash = λ bytes. 0;
  key_of = λ channel hash. [];
}

abbrev start : Outbound × ℕ
start = (
  record { interval = 10; message_queue = []; nonce = 0; fee = 5; digest = []; offchain = [] },
  7,
)

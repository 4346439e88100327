-- ===== src/Router/Tests.antt =====
-- The router at small inputs.
use polkadot_ethereum.Channels.Incentivized.Outbound as IncentivizedOutbound
use polkadot_ethereum.Channels.Basic.Outbound as BasicOutbound
use polkadot_ethereum.Prelude.{refl, some, false, ◌≡◌, []}
use polkadot_ethereum.Core.{ChannelId}
use polkadot_ethereum.Frame.{BasicOutboundError, Part, err, DispatchError}
use polkadot_ethereum.Assets.{Assets}
use polkadot_ethereum.Router.{max_message_payload_size, route, max_messages_per_commit}
use polkadot_ethereum.Router.Fee.{route_refused, ether_fee}

abbrev Chain : Type 0
Chain = Assets × BasicOutbound.Outbound × IncentivizedOutbound.Outbound

abbrev assets_part : Part Chain Assets
assets_part = record {
  get = λ s. s.0;
  put = λ a s. (a, s.1, s.2);
  get_put = λ a s. refl;
  put_get = λ s. refl;
}

abbrev basic_part : Part Chain BasicOutbound.Outbound
basic_part = record {
  get = λ s. s.1;
  put = λ a s. (s.0, a, s.2);
  get_put = λ a s. refl;
  put_get = λ s. refl;
}

abbrev incentivized_part : Part Chain IncentivizedOutbound.Outbound
incentivized_part = record {
  get = λ s. s.2;
  put = λ a s. (s.0, s.1, a);
  get_put = λ a s. refl;
  put_get = λ s. refl;
}

abbrev basic : BasicOutbound.Config
basic = record {
  max_message_payload_size = max_message_payload_size;
  max_messages_per_commit = max_messages_per_commit;
  set_principal_origin = λ origin. false;
  lookup_account = λ source. some source;
  abi_encode = λ tokens. [];
  hash = λ bytes. 0;
  key_of = λ channel hash. [];
}

abbrev incentivized : IncentivizedOutbound.Config Chain
incentivized = record {
  outbound = incentivized_part;
  max_message_payload_size = max_message_payload_size;
  max_messages_per_commit = max_messages_per_commit;
  withdraw_fee = ether_fee assets_part;
  set_fee_origin = λ origin. false;
  abi_encode = λ tokens. [];
  hash = λ bytes. 0;
  key_of = λ channel hash. [];
}

abbrev chain : Chain
chain = (
  record { total_issuances = []; balances = [] },
  record {
    interval = 10;
    message_queue = [];
    principal = 1;
    nonce = 0;
    digest = [];
    offchain = [];
  },
  record { interval = 10; message_queue = []; nonce = 0; fee = 5; digest = []; offchain = [] },
)

-- Account 2 is not the principal.
refused :
    (route basic_part basic incentivized ChannelId.basic 2 9 [] chain).0
    ≡ err (DispatchError.basic_outbound BasicOutboundError.not_authorized)
unfolding route BasicOutbound.submit
refused = refl

route_refused_example : (route basic_part basic incentivized ChannelId.basic 2 9 [] chain).1 ≡ chain
route_refused_example =
    route_refused assets_part basic_part basic incentivized refl (λ a s. refl) ChannelId.basic 2 9
      [] chain (DispatchError.basic_outbound BasicOutboundError.not_authorized) refused

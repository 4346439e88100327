-- ===== src/Dispatch/Tests.antt =====
-- A dispatched call at small inputs: calls are numbers, zero is filtered out, and a call adds itself
-- to a counter.
use polkadot_ethereum.Prelude.{List, ◌+◌, ◌≤◌, refl, ℕ, get_elem?, ltb}
use polkadot_ethereum.Dispatch.{Config, Event}
use polkadot_ethereum.Core.{ChannelId, MessageId}
use polkadot_ethereum.Frame.{ok}

abbrev Chain : Type 0
Chain = List Event × ℕ

abbrev config : Config Chain ℕ
config = record {
  decode = λ payload. get_elem? payload 0;
  call_filter = λ call. ltb 0 call;
  run = λ call origin s. (ok tt, (s.0, s.1 + call));
  events = record {
    get = λ s. s.0;
    put = λ p s. (p, s.1);
    get_put = λ p s. refl;
    put_get = λ s. refl;
  };
}

abbrev AtLeast10 : Chain → Type 0
AtLeast10 s = 10 ≤ s.1

abbrev id : MessageId
id = record { channel_id = ChannelId.basic; nonce = 1 }

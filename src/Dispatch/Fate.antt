-- ===== src/Dispatch/Fate.antt =====
-- What a dispatched message can have done.
use polkadot_ethereum.Dispatch.{
  Event, Config, message_dispatched, message_decode_failed, message_rejected,
}
use polkadot_ethereum.Prelude.{◌≡◌, true, List}
use polkadot_ethereum.Core.{H160, MessageId}
use polkadot_ethereum.Frame.{Origin}

-- The calls report no event of this pallet, and preserve `P` when the origin is an Ethereum account.
module _ {S C : Type 0} (c : Config S C) (P : S → Type 0) where
  pub record RunsSafely : Type 0 where
    pub keeps :
        (call : C) (source : H160) (s : S)
        → c.call_filter call ≡ true
        → P s
        → P (c.run call (Origin.ethereum source) s).1
    pub quiet :
        (call : C) (source : H160) (s : S)
        → c.events.get (c.run call (Origin.ethereum source) s).1 ≡ c.events.get s
    pub events_apart : (es : List Event) (s : S) → P s → P (c.events.put es s)

-- The id that an event is about.
abbrev pub event_id : Event → MessageId
event_id (message_dispatched id _) = id
event_id (message_rejected id) = id
event_id (message_decode_failed id) = id

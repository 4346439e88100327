-- ===== src/Dispatch.antt =====
-- parachain/pallets/dispatch/src/lib.rs: calls that a message from Ethereum carries, and the origin
-- that they are given.
pub mod Fate
mod Tests
use polkadot_ethereum.Prelude.{◌++◌, Bool, Option, none, List, ◌∷◌, some, if◌then◌else◌, [], not}
use polkadot_ethereum.Frame.{DispatchError, err, Origin, Part, Dispatch, Origin, ok, Result}
use polkadot_ethereum.Core.{H160, Bytes, MessageId}
use polkadot_ethereum.Contracts.{MessageDispatch}

-- The events of the pallet. A dispatched call reports its error or nothing.
pub data Event : Type 0 where
  message_dispatched : MessageId → Option DispatchError → Event
  message_rejected : MessageId → Event
  message_decode_failed : MessageId → Event

-- `EnsureEthereumAccount::try_origin`
abbrev pub ethereum_account : Origin → Option H160
ethereum_account (Origin.ethereum account) = some account
ethereum_account _ = none

-- The runtime's calls: how they are decoded, filtered and run, and where the events go.
pub record Config (S C : Type 0) : Type 0 where
  pub decode : Bytes → Option C
  pub call_filter : C → Bool
  pub run : C → Origin → Dispatch S
  pub events : Part S (List Event)

abbrev pub outcome_of : Result DispatchError (Unit {0}) → Option DispatchError
outcome_of (ok _) = none
outcome_of (err e) = some e

module _ {S C : Type 0} (c : Config S C) where
  abbrev pub deposit : Event → S → S
  deposit event s = c.events.put (c.events.get s ++ event ∷ []) s

  unfoldable pub dispatch : H160 → MessageId → Bytes → S → S
  dispatch source id payload s = elim (c.decode payload) [
    | none ↦ deposit (message_decode_failed id) s
    | some call ↦
        let (result, s') = c.run call (Origin.ethereum source) s in
        if not (c.call_filter call)
        then deposit (message_rejected id) s
        else deposit (message_dispatched id (outcome_of result)) s'
  ]

  abbrev pub dispatcher : MessageDispatch S
  dispatcher = record { dispatch = dispatch }

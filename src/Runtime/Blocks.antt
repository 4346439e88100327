-- ===== src/Runtime/Blocks.antt =====
-- What the start of a block keeps.
use polkadot_ethereum.Prelude.{inl, inr, ◌∙◌, ℕ, List, [], ◌∷◌, ◌≡◌, refl, arith}
use polkadot_ethereum.Channels.Basic.Outbound as BasicOutbound
use polkadot_ethereum.Channels.Incentivized.Outbound as IncentivizedOutbound
use polkadot_ethereum.Channels.Basic.Outbound.Order as BasicOrder
use polkadot_ethereum.Channels.Incentivized.Outbound.Order as IncentivizedOrder
use polkadot_ethereum.Frame.Outcome.{Result-cases}
use polkadot_ethereum.Runtime.{Constants, Chain}
use polkadot_ethereum.Runtime.Calls.{External}
use polkadot_ethereum.Runtime.Run.{basic_outbound_config, incentivized_outbound_config}
use polkadot_ethereum.Runtime.Kept.{Kept, same-Kept}
use polkadot_ethereum.Runtime.History.{on_initialize}

module _ {B O : Type 0} (k : Constants) (x : External B O) where
  basic_committed :
      (ms : List BasicOutbound.QueuedMessage) (s : BasicOutbound.Outbound)
      → (BasicOutbound.commit_messages (basic_outbound_config k x) ms s).principal ≡ s.principal
  unfolding BasicOutbound.commit_messages
  basic_committed [] s = refl
  basic_committed (m ∷ ms) s = refl

  incentivized_committed :
      (ms : List IncentivizedOutbound.QueuedMessage) (s : IncentivizedOutbound.Outbound)
      → (IncentivizedOutbound.commit_messages (incentivized_outbound_config k x) ms s).fee ≡ s.fee
  unfolding IncentivizedOutbound.commit_messages
  incentivized_committed [] s = refl
  incentivized_committed (m ∷ ms) s = refl

  principal_begun :
      (now : ℕ) (s : BasicOutbound.Outbound)
      → (BasicOutbound.on_initialize (basic_outbound_config k x) now s).1.principal ≡ s.principal
  unfolding BasicOutbound.on_initialize BasicOutbound.commit
  principal_begun now s =
      ground (arith, basic_committed s.message_queue (record s { message_queue = [] }))

  fee_begun :
      (now : ℕ) (s : IncentivizedOutbound.Outbound)
      → (IncentivizedOutbound.on_initialize (incentivized_outbound_config k x) now s).1.fee ≡ s.fee
  unfolding IncentivizedOutbound.on_initialize IncentivizedOutbound.commit
  fee_begun now s =
      ground (arith, incentivized_committed s.message_queue (record s { message_queue = [] }))

  module _ (start : Chain B) where
    basic_begun :
        (now : ℕ) (s : Chain B)
        → Kept k x start s
        → Kept k x start (record s {
          basic_outbound =
              (BasicOutbound.on_initialize (basic_outbound_config k x) now s.basic_outbound).1;
        })
    basic_begun now s h = record {
      sound = h.sound;
      indexed = h.indexed;
      basic =
          BasicOrder.on_initialize-IsOutbound (basic_outbound_config k x) 0 now s.basic_outbound
            h.basic;
      incentivized = h.incentivized;
      charged = h.charged;
      trusted = principal_begun now s.basic_outbound ∙ h.trusted;
      registered = h.registered;
    }

    incentivized_begun :
        (now : ℕ) (s : Chain B)
        → Kept k x start s
        → Kept k x start (record s {
          incentivized_outbound =
              (IncentivizedOutbound.on_initialize
                (incentivized_outbound_config k x)
                now
                s.incentivized_outbound).1;
        })
    incentivized_begun now s h = record {
      sound = h.sound;
      indexed = h.indexed;
      basic = h.basic;
      incentivized =
          IncentivizedOrder.on_initialize-IsOutbound (incentivized_outbound_config k x) 0 now
            s.incentivized_outbound h.incentivized;
      charged = fee_begun now s.incentivized_outbound ∙ h.charged;
      trusted = h.trusted;
      registered = h.registered;
    }

    pub initialize-Kept :
        (now : ℕ) (s : Chain B) → Kept k x start s → Kept k x start (on_initialize k x now s).1
    unfolding on_initialize
    initialize-Kept now s h =
        let first = BasicOutbound.on_initialize (basic_outbound_config k x) now s.basic_outbound in
        let begun = record s { basic_outbound = first.1 } in
        elim (Result-cases first.0) [
          | inl (u, fine) ↦
              same-Kept
                (record begun {
                  incentivized_outbound =
                      (IncentivizedOutbound.on_initialize (incentivized_outbound_config k x) now
                        s.incentivized_outbound).1;
                })
                _ (ground (arith, fine)) (incentivized_begun now begun (basic_begun now s h))
          | inr (e, bad) ↦ same-Kept begun _ (ground (arith, bad)) (basic_begun now s h)
        ]

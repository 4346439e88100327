-- ===== src/Channels/Incentivized/Outbound/Submit.antt =====
-- `submit` of the incentivized channel: what it accepts, and the fee.
use polkadot_ethereum.Frame.{
  IncentivizedOutboundError, ok, err, DispatchError, DispatchError, IncentivizedOutboundError,
  IncentivizedOutboundError, IncentivizedOutboundError,
}
use polkadot_ethereum.Core.{AccountId, U256, Bytes, H160}
use polkadot_ethereum.Prelude.{
  ◌∷◌, ◌+◌, ◌<◌, inl, ◌≡◌, arith, inr, Bool-cases, ◌↔◌, ◌⊎◌, ◌≤◌, ◌++◌, [], length, ltb, leb,
  dec_lt,
}
use polkadot_ethereum.Channels.Incentivized.Outbound.{QueuedMessage, Config, Outbound, submit}
use polkadot_ethereum.Frame.Outcome.{Result-cases}
use polkadot_ethereum.Prelude.Word.{u64_mod}

module _ {S : Type 0} (c : Config S) where
  -- A withdrawal that fails changes nothing, and one that succeeds leaves this channel alone.
  pub record FeeIsAtomic : Type 0 where
    pub unchanged :
        (who : AccountId) (amount : U256) (s : S) (e : DispatchError)
        → (c.withdraw_fee who amount s).0 ≡ err e
        → (c.withdraw_fee who amount s).1 ≡ s
    pub apart :
        (who : AccountId) (amount : U256) (s : S)
        → c.outbound.get (c.withdraw_fee who amount s).1 ≡ c.outbound.get s

  pub record Accepts (who : AccountId) (payload : Bytes) (s : S) : Type 0 where
    pub has_room : length (c.outbound.get s).message_queue < c.max_messages_per_commit
    pub payload_fits : length payload ≤ c.max_message_payload_size
    pub has_nonce : (c.outbound.get s).nonce + 1 < u64_mod
    pub charged : (c.withdraw_fee who (c.outbound.get s).fee s).0 ≡ ok tt

  abbrev pub message_of : H160 → Bytes → S → QueuedMessage
  message_of target payload s = record {
    target = target;
    nonce = (c.outbound.get s).nonce + 1;
    fee = (c.outbound.get s).fee;
    payload = payload;
  }

  abbrev pub queued : H160 → Bytes → S → Outbound
  queued target payload s = record (c.outbound.get s) {
    nonce = (c.outbound.get s).nonce + 1;
    message_queue = (c.outbound.get s).message_queue ++ message_of target payload s ∷ [];
  }

  module _ (atomic : FeeIsAtomic) (who : AccountId) (target : H160) (payload : Bytes) (s : S) where
    pub submit-Accepts :
        Accepts who payload s
        → submit c who target payload s ≡ (
          ok tt,
          c.outbound.put (queued target payload s) (c.withdraw_fee who (c.outbound.get s).fee s).1,
        )
    unfolding submit
    submit-Accepts a = ground (
      arith,
      a.has_room,
      a.payload_fits,
      a.has_nonce,
      a.charged,
      atomic.apart who (c.outbound.get s).fee s,
    )

    pub submit_cases :
        Accepts who payload s ⊎ ((e : DispatchError) × (submit c who target payload s ≡ (err e, s)))
    unfolding submit
    submit_cases =
        elim (Bool-cases
          (ltb (length (c.outbound.get s).message_queue) c.max_messages_per_commit)) [
            | inr f ↦ inr (
              DispatchError.incentivized_outbound
                  IncentivizedOutboundError.queue_size_limit_reached,
              ground (arith, f),
            )
            | inl f ↦ elim (Bool-cases (leb (length payload) c.max_message_payload_size)) [
              | inr g ↦ inr (
                DispatchError.incentivized_outbound IncentivizedOutboundError.payload_too_large,
                ground (arith, f, g),
              )
              | inl g ↦ elim (dec_lt ((c.outbound.get s).nonce + 1) u64_mod) [
                | no h ↦ inr (
                  DispatchError.incentivized_outbound IncentivizedOutboundError.overflow,
                  ground (arith, f, g, h),
                )
                | yes h ↦ elim (Result-cases (c.withdraw_fee who (c.outbound.get s).fee s).0) [
                  | inr (e, bad) ↦ inr (
                    DispatchError.incentivized_outbound IncentivizedOutboundError.no_funds,
                    ground
                        (arith, f, g, h, bad, atomic.unchanged who (c.outbound.get s).fee s e bad),
                  )
                  | inl (u, fine) ↦ inl (record {
                    has_room = ground (arith, f);
                    payload_fits = ground (arith, g);
                    has_nonce = h;
                    charged = fine;
                  })
                ]
              ]
            ]
          ]

pub incentivized_submit_iff :
    {S : Type 0} (c : Config S) (who : AccountId) (target : H160) (payload : Bytes) (s : S)
    → FeeIsAtomic c
    → (((submit c who target payload s).0 ≡ ok tt) ↔ Accepts c who payload s)
      × (Accepts c who payload s
          → (submit c who target payload s).1
            ≡ c.outbound.put
                (queued c target payload s)
                (c.withdraw_fee who (c.outbound.get s).fee s).1)
      × ((e : DispatchError)
          → (submit c who target payload s).0 ≡ err e
          → (submit c who target payload s).1 ≡ s)
incentivized_submit_iff c who target payload s atomic =
    elim (submit_cases c atomic who target payload s) [
      | inl a ↦
          let e = submit-Accepts c atomic who target payload s a in
          ((λ _. a, λ _. cc e), λ _. cc e, λ x f. cc (e, f))
      | inr (x, e) ↦ (
        (λ f. cc (e, f), λ a. cc (submit-Accepts c atomic who target payload s a, e)),
        λ a. cc (submit-Accepts c atomic who target payload s a),
        λ y f. cc e,
      )
    ]

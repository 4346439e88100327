-- ===== src/Channels/Basic/Outbound/Submit.antt =====
-- `submit`: what it accepts.
use polkadot_ethereum.Prelude.{
  ◌↔◌, Bool-cases, arith, ◌++◌, ◌∷◌, ◌≡◌, inr, inl, ◌≤◌, ◌+◌, ◌⊎◌, ◌==◌, ◌<◌, [], length, ltb, leb,
  dec_lt,
}
use polkadot_ethereum.Frame.{
  BasicOutboundError, err, DispatchError, DispatchError, ok, BasicOutboundError, BasicOutboundError,
  BasicOutboundError,
}
use polkadot_ethereum.Channels.Basic.Outbound.{Outbound, Config, submit}
use polkadot_ethereum.Core.{AccountId, H160, Bytes}
use polkadot_ethereum.Prelude.Word.{u64_mod}

module _ (c : Config) where
  -- What `submit` asks of its arguments.
  pub record Accepts (who : AccountId) (payload : Bytes) (s : Outbound) : Type 0 where
    pub authorized : who ≡ s.principal
    pub has_room : length s.message_queue < c.max_messages_per_commit
    pub payload_fits : length payload ≤ c.max_message_payload_size
    pub has_nonce : s.nonce + 1 < u64_mod

  abbrev pub queued : H160 → Bytes → Outbound → Outbound
  queued target payload s = record s {
    nonce = s.nonce + 1;
    message_queue =
        s.message_queue ++ record { target = target; nonce = s.nonce + 1; payload = payload } ∷ [];
  }

  pub submit-Accepts :
      (who : AccountId) (target : H160) (payload : Bytes) (s : Outbound)
      → Accepts who payload s
      → submit c who target payload s ≡ (ok tt, queued target payload s)
  unfolding submit
  submit-Accepts who target payload s a =
      ground (arith, a.authorized, a.has_room, a.payload_fits, a.has_nonce)

  pub submit_cases :
      (who : AccountId) (target : H160) (payload : Bytes) (s : Outbound)
      → Accepts who payload s ⊎ ((e : DispatchError) × (submit c who target payload s ≡ (err e, s)))
  unfolding submit
  submit_cases who target payload s = elim (Bool-cases (who == s.principal)) [
    | inr e ↦
        inr (DispatchError.basic_outbound BasicOutboundError.not_authorized, ground (arith, e))
    | inl e ↦ elim (Bool-cases (ltb (length s.message_queue) c.max_messages_per_commit)) [
      | inr f ↦ inr (
        DispatchError.basic_outbound BasicOutboundError.queue_size_limit_reached,
        ground (arith, e, f),
      )
      | inl f ↦ elim (Bool-cases (leb (length payload) c.max_message_payload_size)) [
        | inr g ↦ inr (
          DispatchError.basic_outbound BasicOutboundError.payload_too_large,
          ground (arith, e, f, g),
        )
        | inl g ↦ elim (dec_lt (s.nonce + 1) u64_mod) [
          | no h ↦
              inr (
                DispatchError.basic_outbound BasicOutboundError.overflow,
                ground (arith, e, f, g, h),
              )
          | yes h ↦ inl (record {
            authorized = ground (arith, e);
            has_room = ground (arith, f);
            payload_fits = ground (arith, g);
            has_nonce = h;
          })
        ]
      ]
    ]
  ]

-- A submission is accepted exactly when the sender is the principal, the queue has room, the payload
-- is not too large and the nonce can grow; it then appends one message under the next nonce and
-- changes nothing else. A submission that fails changes nothing.
pub submit_iff :
    (c : Config) (who : AccountId) (target : H160) (payload : Bytes) (s : Outbound)
    → (((submit c who target payload s).0 ≡ ok tt) ↔ Accepts c who payload s)
      × (Accepts c who payload s → (submit c who target payload s).1 ≡ queued c target payload s)
      × ((e : DispatchError)
          → (submit c who target payload s).0 ≡ err e
          → (submit c who target payload s).1 ≡ s)
submit_iff c who target payload s = elim (submit_cases c who target payload s) [
  | inl a ↦
      let e = submit-Accepts c who target payload s a in
      ((λ _. a, λ _. cc e), λ _. cc e, λ x f. cc (e, f))
  | inr (x, e) ↦ (
    (λ f. cc (e, f), λ a. cc (submit-Accepts c who target payload s a)),
    λ a. cc (submit-Accepts c who target payload s a),
    λ y f. cc e,
  )
]

-- ===== src/Channels/Incentivized/Inbound/Order.antt =====
-- Messages are dispatched in order and once each, as in the basic channel.
use polkadot_ethereum.Channels.Incentivized.Inbound.{
  Config, Inbound, Envelope, submit, pay_out, handle_fee, rewarded_amount,
}
use polkadot_ethereum.Channels.Incentivized.Inbound.Cases.{
  Delivers, submit_cases, submit-Delivers, delivered, id_of,
}
use polkadot_ethereum.Prelude.{
  ◌<◌, arith, ◌∙◌, ◌+◌, List, refl, ◌∷◌, inr, inl, ◌≡◌, ◌%◌, ℕ, Option-cases, [], subst, length,
  sym, ap,
}
use polkadot_ethereum.Core.{AccountId, MessageId, Bytes, Message, ChannelId, H160}
use polkadot_ethereum.Channels.Journal.{
  Consecutive-count, Consecutive, Recorded, recorded_part, recorded_verifier, recorder,
}
use polkadot_ethereum.Frame.{Result, DispatchError, Origin}
use polkadot_ethereum.Prelude.Word.{u64_mod}

module _ {S : Type 0} (c : Config S) where
  abbrev pub recorded : Config (Recorded S)
  recorded = record {
    inbound = recorded_part c.inbound;
    verifier = recorded_verifier c.verifier;
    dispatcher = recorder c.dispatcher;
    decode_event = c.decode_event;
    currency = record {
      withdraw = λ who amount p. let (r, s) = c.currency.withdraw who amount p.0 in (r, (s, p.1));
      deposit_into_existing = λ who amount p.
          let (r, s) = c.currency.deposit_into_existing who amount p.0 in (r, (s, p.1));
      resolve_creating = λ who amount p. (c.currency.resolve_creating who amount p.0, p.1);
      same = c.currency.same;
    };
    source_account = c.source_account;
    treasury_account = c.treasury_account;
    fee_converter = c.fee_converter;
    update_origin = c.update_origin;
    mul_ceil = c.mul_ceil;
  }

  abbrev pub nonce_of : S → ℕ
  nonce_of s = (c.inbound.get s).nonce

  -- Any number of submissions, in any order, and between them anything that leaves the nonce alone
  -- and dispatches nothing.
  pub data Run : Recorded S → Recorded S → Type 0 where
    done : {p : Recorded S} → Run p p
    submits :
        {p q : Recorded S} (origin : Origin) (message : Message)
        → Run (submit recorded origin message p).1 q
        → Run p q
    others :
        {s t : S} {ids : List MessageId} {q : Recorded S}
        → nonce_of t ≡ nonce_of s
        → Run (t, ids) q
        → Run (s, ids) q

  -- Neither the currency nor the calls that a dispatch may make write the nonce.
  pub record KeepsNonce : Type 0 where
    pub keeps :
        (source : H160) (id : MessageId) (payload : Bytes) (s : S)
        → nonce_of (c.dispatcher.dispatch source id payload s) ≡ nonce_of s
    pub withdraw_keeps :
        (who : AccountId) (amount : ℕ) (s : S)
        → nonce_of (c.currency.withdraw who amount s).1 ≡ nonce_of s
    pub deposit_keeps :
        (who : AccountId) (amount : ℕ) (s : S)
        → nonce_of (c.currency.deposit_into_existing who amount s).1 ≡ nonce_of s
    pub resolve_keeps :
        (who : AccountId) (amount : ℕ) (s : S)
        → nonce_of (c.currency.resolve_creating who amount s) ≡ nonce_of s

  -- Paying a fee dispatches nothing.
  recorded-pay_out :
      (amount : ℕ) (relayer : AccountId) (s : S) (ids : List MessageId)
      → pay_out recorded amount relayer (s, ids) ≡ (pay_out c amount relayer s, ids)
  unfolding pay_out
  recorded-pay_out amount relayer s ids = ground arith

  recorded-handle_fee :
      (amount : ℕ) (relayer : AccountId) (s : S) (ids : List MessageId)
      → handle_fee recorded amount relayer (s, ids) ≡ (handle_fee c amount relayer s, ids)
  unfolding handle_fee
  recorded-handle_fee amount relayer s ids =
      ground (
        arith,
        recorded-pay_out amount relayer (c.currency.withdraw c.source_account amount s).1 ids,
      )

  pay_out_keeps :
      KeepsNonce
      → (amount : ℕ) (relayer : AccountId) (s : S)
      → nonce_of (pay_out c amount relayer s) ≡ nonce_of s
  unfolding pay_out
  pay_out_keeps k amount relayer s =
      let reward = c.mul_ceil (c.inbound.get s).reward_fraction amount in
      let (r, t) = c.currency.deposit_into_existing relayer reward s in
      elim (Option-cases (c.currency.same amount (rewarded_amount c r))) [
        | inl e ↦ ground (arith, e, k.deposit_keeps relayer reward s)
        | inr (rest, e) ↦
            ground (
              arith,
              e,
              k.deposit_keeps relayer reward s,
              k.resolve_keeps c.treasury_account rest t,
            )
      ]

  fee_keeps :
      KeepsNonce
      → (amount : ℕ) (relayer : AccountId) (s : S)
      → nonce_of (handle_fee c amount relayer s) ≡ nonce_of s
  unfolding handle_fee
  fee_keeps k amount relayer s = ground (
    arith,
    k.withdraw_keeps c.source_account amount s,
    pay_out_keeps k amount relayer (c.currency.withdraw c.source_account amount s).1,
  )

  step_Consecutive :
      KeepsNonce
      → (start : ℕ) (origin : Origin) (message : Message) (p : Recorded S)
      → Consecutive ChannelId.incentivized start p.1 (nonce_of p.0)
      → Consecutive ChannelId.incentivized start
          (submit recorded origin message p).1.1
          (nonce_of (submit recorded origin message p).1.0)
  step_Consecutive k start origin message p so = elim (submit_cases recorded origin message p) [
    | inl (e, bad) ↦
        subst
          (λ (r : Result DispatchError (Unit {0}) × Recorded S).
            Consecutive ChannelId.incentivized start r.1.1 (nonce_of r.1.0))
          (sym bad) so
    | inr (envelope, d) ↦
        subst
          (λ (r : Result DispatchError (Unit {0}) × Recorded S).
            Consecutive ChannelId.incentivized start r.1.1 (nonce_of r.1.0))
          (sym (submit-Delivers recorded origin message p envelope d)) (journal envelope d)
  ]
    where
      journal :
          (envelope : Envelope) (d : Delivers recorded origin message p envelope)
          → Consecutive ChannelId.incentivized start
              (delivered recorded origin message p envelope d.sender).1
              (nonce_of (delivered recorded origin message p envelope d.sender).0)
      journal envelope d =
          let set : Inbound = record (c.inbound.get p.0) { nonce = envelope.nonce } in
          let s : S = c.inbound.put set p.0 in
          let after : nonce_of (
                c.dispatcher.dispatch envelope.source (id_of recorded origin message p envelope)
                  envelope.payload (handle_fee c envelope.fee d.sender s))
              ≡ envelope.nonce =
            k.keeps envelope.source (id_of recorded origin message p envelope) envelope.payload
              (handle_fee c envelope.fee d.sender s)
            ∙ fee_keeps k envelope.fee d.sender s
            ∙ ap (λ (i : Inbound). i.nonce) (c.inbound.get_put set p.0) in
          subst
            (λ (q : Recorded S).
              Consecutive ChannelId.incentivized start
                (id_of recorded origin message p envelope ∷ q.1)
                (nonce_of (
                  c.dispatcher.dispatch envelope.source (id_of recorded origin message p envelope)
                    envelope.payload q.0)))
            (sym (recorded-handle_fee envelope.fee d.sender s p.1))
            (refl, sym after, (nonce_of p.0, after ∙ d.next, so))

  pub Run-Consecutive :
      KeepsNonce
      → (start : ℕ) (p q : Recorded S) → Run p q
      → Consecutive ChannelId.incentivized start p.1 (nonce_of p.0)
      → Consecutive ChannelId.incentivized start q.1 (nonce_of q.0)
  Run-Consecutive k start p q done so = so
  Run-Consecutive k start p q (submits origin message run) so =
      Run-Consecutive k start _ q run (step_Consecutive k start origin message p so)
  Run-Consecutive k start _ q (others {s} {t} {ids} same run) so =
      Run-Consecutive k start (t, ids) q run
        (subst (λ n. Consecutive ChannelId.incentivized start ids n) (sym same) so)

-- Whatever is submitted, by whom and in what order, the messages that reach the dispatch bear the
-- nonces that follow the first one by one, none missing and none twice (up to the wrap of the `u64`),
-- if neither the currency nor the calls that are dispatched write the nonce.
pub incentivized_inbound_order :
    {S : Type 0} (c : Config S) (s t : S) (ids : List MessageId)
    → KeepsNonce c
    → nonce_of c s < u64_mod
    → Run c (s, []) (t, ids)
    → Consecutive ChannelId.incentivized (nonce_of c s) ids (nonce_of c t)
      × (nonce_of c t ≡ (nonce_of c s + length ids) % u64_mod)
incentivized_inbound_order c s t ids k small run =
    let so = Run-Consecutive c k (nonce_of c s) (s, []) (t, ids) run refl in
    (so, Consecutive-count ChannelId.incentivized (nonce_of c s) ids (nonce_of c t) small so)

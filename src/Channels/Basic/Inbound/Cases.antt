-- ===== src/Channels/Basic/Inbound/Cases.antt =====
-- How a submission ends.
use polkadot_ethereum.Frame.{
  Origin, Origin, err, DispatchError, Origin, Origin, Origin, ok, DispatchError, InboundError,
  InboundError, InboundError, signer,
}
use polkadot_ethereum.Prelude.{
  inl, ◌%◌, ◌≡◌, some, arith, ◌⊎◌, ◌+◌, Option-cases, Bool-cases, ◌==◌, inr,
}
use polkadot_ethereum.Channels.Basic.Inbound.{Envelope, Config, submit, try_from}
use polkadot_ethereum.Core.{ChannelId, AccountId, MessageId, Message}
use polkadot_ethereum.Ethereum.{Log}
use polkadot_ethereum.Frame.Outcome.{Result-cases}
use polkadot_ethereum.Prelude.Word.{u64_mod}

module _ {S : Type 0} (c : Config S) (origin : Origin) (message : Message) (s : S) where
  -- All that a message needs to be dispatched.
  pub record Delivers (envelope : Envelope) : Type 0 where
    pub sender : AccountId
    pub signed_by : signer origin ≡ some sender
    pub log : Log
    pub verified : (c.verifier.verify message s).0 ≡ ok log
    pub decoded : try_from c log ≡ some envelope
    pub from_channel : envelope.channel ≡ (c.inbound.get s).source_channel
    pub next : envelope.nonce ≡ ((c.inbound.get s).nonce + 1) % u64_mod

  abbrev pub id_of : Envelope → MessageId
  id_of envelope = record { channel_id = ChannelId.basic; nonce = envelope.nonce }

  abbrev pub delivered : Envelope → S
  delivered envelope =
      c.dispatcher.dispatch envelope.source (id_of envelope) envelope.payload
        (c.inbound.put (record (c.inbound.get s) { nonce = envelope.nonce }) s)

  pub submit-Delivers :
      (envelope : Envelope)
      → Delivers envelope
      → submit c origin message s ≡ (ok tt, delivered envelope)
  unfolding submit
  submit-Delivers envelope d = ground (
    arith,
    d.signed_by,
    d.verified,
    c.verifier.reads message s,
    d.decoded,
    d.from_channel,
    d.next,
  )

  pub submit_cases :
      ((e : DispatchError) × (submit c origin message s ≡ (err e, s)))
      ⊎ ((envelope : Envelope) × Delivers envelope)
  unfolding submit
  submit_cases = elim (Option-cases (signer origin)) [
    | inl bad ↦ inl (DispatchError.bad_origin, ground (arith, bad))
    | inr (sender, by) ↦ elim (Result-cases (c.verifier.verify message s).0) [
      | inr (e, bad) ↦ inl (e, ground (arith, bad, by, c.verifier.reads message s))
      | inl (log, fine) ↦ elim (Option-cases (try_from c log)) [
        | inl bad ↦ inl (
          DispatchError.basic_inbound InboundError.invalid_envelope,
          ground (arith, bad, fine, by, c.verifier.reads message s),
        )
        | inr (envelope, ed) ↦
            elim (Bool-cases (envelope.channel == (c.inbound.get s).source_channel)) [
              | inr bad ↦ inl (
                DispatchError.basic_inbound InboundError.invalid_source_channel,
                ground (arith, bad, ed, fine, by, c.verifier.reads message s),
              )
              | inl ch ↦
                  elim (Bool-cases (envelope.nonce == ((c.inbound.get s).nonce + 1) % u64_mod)) [
                    | inr bad ↦ inl (
                      DispatchError.basic_inbound InboundError.invalid_nonce,
                      ground (arith, bad, ch, ed, fine, by, c.verifier.reads message s),
                    )
                    | inl n ↦ inr (
                      envelope,
                      record {
                        sender = sender;
                        signed_by = by;
                        log = log;
                        verified = fine;
                        decoded = ed;
                        from_channel = ground (arith, ch);
                        next = ground (arith, n);
                      },
                    )
                  ]
            ]
      ]
    ]
  ]

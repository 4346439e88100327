-- ===== src/Channels/Basic/Inbound/Order.antt =====
-- Messages are dispatched in order and once each.
use polkadot_ethereum.Prelude.{
  inr, refl, ◌%◌, ◌+◌, ◌<◌, List, inl, ℕ, ◌≡◌, ◌∙◌, [], subst, sym, length, ap,
}
use polkadot_ethereum.Frame.{Result, Origin, DispatchError}
use polkadot_ethereum.Core.{Message, H160, Bytes, MessageId, ChannelId}
use polkadot_ethereum.Channels.Journal.{
  Consecutive, Recorded, Consecutive-count, recorded_part, recorded_verifier, recorder,
}
use polkadot_ethereum.Channels.Basic.Inbound.{Config, Inbound, Envelope, submit}
use polkadot_ethereum.Prelude.Word.{u64_mod}
use polkadot_ethereum.Channels.Basic.Inbound.Cases.{delivered, id_of, submit_cases, submit-Delivers}

module _ {S : Type 0} (c : Config S) where
  abbrev pub recorded : Config (Recorded S)
  recorded = record {
    inbound = recorded_part c.inbound;
    verifier = recorded_verifier c.verifier;
    dispatcher = recorder c.dispatcher;
    decode_event = c.decode_event;
  }

  abbrev pub nonce_of : S → ℕ
  nonce_of s = (c.inbound.get s).nonce

  -- Any number of submissions, in any order, and between them anything that leaves the nonce alone
  -- and dispatches nothing.
  pub data Run : Recorded S → Recorded S → Type 0 where
    done : {p : Recorded S} → Run p p
    submits :
        {p q : Recorded S} (origin : Origin) (message : Message)
        → Run (submit recorded origin message p).1 q
        → Run p q
    others :
        {s t : S} {ids : List MessageId} {q : Recorded S}
        → nonce_of t ≡ nonce_of s
        → Run (t, ids) q
        → Run (s, ids) q

  -- The calls that a dispatch may make do not write the nonce.
  pub record KeepsNonce : Type 0 where
    pub keeps :
        (source : H160) (id : MessageId) (payload : Bytes) (s : S)
        → nonce_of (c.dispatcher.dispatch source id payload s) ≡ nonce_of s

  step_Consecutive :
      KeepsNonce
      → (start : ℕ) (origin : Origin) (message : Message) (p : Recorded S)
      → Consecutive ChannelId.basic start p.1 (nonce_of p.0)
      → Consecutive ChannelId.basic start
          (submit recorded origin message p).1.1
          (nonce_of (submit recorded origin message p).1.0)
  step_Consecutive k start origin message p so = elim (submit_cases recorded origin message p) [
    | inl (e, bad) ↦
        subst
          (λ (r : Result DispatchError (Unit {0}) × Recorded S).
            Consecutive ChannelId.basic start r.1.1 (nonce_of r.1.0))
          (sym bad) so
    | inr (envelope, d) ↦
        subst
          (λ (r : Result DispatchError (Unit {0}) × Recorded S).
            Consecutive ChannelId.basic start r.1.1 (nonce_of r.1.0))
          (sym (submit-Delivers recorded origin message p envelope d))
          (refl, sym (after envelope), (nonce_of p.0, after envelope ∙ d.next, so))
  ]
    where
      after :
          (envelope : Envelope)
          → nonce_of (delivered recorded origin message p envelope).0 ≡ envelope.nonce
      after envelope =
          let set : Inbound = record (c.inbound.get p.0) { nonce = envelope.nonce } in
          k.keeps envelope.source (id_of recorded origin message p envelope) envelope.payload
            (c.inbound.put set p.0)
          ∙ ap (λ (i : Inbound). i.nonce) (c.inbound.get_put set p.0)

  pub Run-Consecutive :
      KeepsNonce
      → (start : ℕ) (p q : Recorded S) → Run p q
      → Consecutive ChannelId.basic start p.1 (nonce_of p.0)
      → Consecutive ChannelId.basic start q.1 (nonce_of q.0)
  Run-Consecutive k start p q done so = so
  Run-Consecutive k start p q (submits origin message run) so =
      Run-Consecutive k start _ q run (step_Consecutive k start origin message p so)
  Run-Consecutive k start _ q (others {s} {t} {ids} same run) so =
      Run-Consecutive k start (t, ids) q run
        (subst (λ n. Consecutive ChannelId.basic start ids n) (sym same) so)

-- Whatever is submitted, by whom and in what order, the messages that reach the dispatch bear the
-- nonces that follow the first one by one, none missing and none twice (up to the wrap of the `u64`),
-- if the calls that are dispatched do not write the nonce.
pub inbound_order :
    {S : Type 0} (c : Config S) (s t : S) (ids : List MessageId)
    → KeepsNonce c
    → nonce_of c s < u64_mod
    → Run c (s, []) (t, ids)
    → Consecutive ChannelId.basic (nonce_of c s) ids (nonce_of c t)
      × (nonce_of c t ≡ (nonce_of c s + length ids) % u64_mod)
inbound_order c s t ids k small run =
    let so = Run-Consecutive c k (nonce_of c s) (s, []) (t, ids) run refl in
    (so, Consecutive-count ChannelId.basic (nonce_of c s) ids (nonce_of c t) small so)

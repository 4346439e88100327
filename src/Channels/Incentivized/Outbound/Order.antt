-- ===== src/Channels/Incentivized/Outbound/Order.antt =====
-- The queue and the commitments, as in the basic channel.
use polkadot_ethereum.Channels.Incentivized.Outbound.{
  Config, Outbound, QueuedMessage, submit, commit, on_initialize, commit_messages,
}
use polkadot_ethereum.Channels.Incentivized.Outbound.Submit.{
  FeeIsAtomic, Accepts, queued, submit_cases, submit-Accepts,
}
use polkadot_ethereum.Core.{H160, Bytes, AccountId}
use polkadot_ethereum.Frame.{DispatchError, Result}
use polkadot_ethereum.Prelude.{
  ◌++◌, List, ℕ, ◌∷◌, ◌≤◌, ◌<◌, [], length, All, ◌≡◌, inr, refl, ◌==◌, ◌+◌, arith, inl, ◌%◌,
  length-append, Bool-cases, subst, sym, ap, ◌∙◌,
}
use polkadot_ethereum.Channels.Numbered.{
  Numbered, flatten, Numbered-snoc, All-snoc, flatten-snoc, append_assoc,
}
use polkadot_ethereum.Prelude.Word.{u64_mod}

abbrev pub nonce_of : QueuedMessage → ℕ
nonce_of m = m.nonce

-- All that has been accepted, committed or still queued, from the oldest.
abbrev pub sent : Outbound → List QueuedMessage
sent s = flatten s.offchain ++ s.message_queue

module _ {S : Type 0} (c : Config S) where
  abbrev pub Fits : QueuedMessage → Type 0
  Fits m = length m.payload ≤ c.max_message_payload_size

  pub record IsOutbound (start : ℕ) (s : Outbound) : Type 0 where
    pub numbered : Numbered nonce_of start (sent s) s.nonce
    pub queue_fits : length s.message_queue ≤ c.max_messages_per_commit
    pub payloads_fit : All Fits s.message_queue
    pub nonce_fits : s.nonce < u64_mod

  module _ (start : ℕ) where
    commit-Numbered :
        (ms : List QueuedMessage) (s : Outbound)
        → Numbered nonce_of start (flatten s.offchain ++ ms) s.nonce
        → Numbered nonce_of start
            (sent (commit_messages c ms (record s { message_queue = [] })))
            (commit_messages c ms (record s { message_queue = [] })).nonce
    commit-Numbered [] s n = n
    commit-Numbered (m ∷ ms) s n =
        subst (λ l. Numbered nonce_of start l s.nonce) (sym (flatten-snoc s.offchain _ (m ∷ ms))) n

    commit_rest :
        (ms : List QueuedMessage) (s : Outbound)
        → ((commit_messages c ms s).message_queue ≡ s.message_queue)
          × ((commit_messages c ms s).nonce ≡ s.nonce)
    commit_rest [] s = (refl, refl)
    commit_rest (m ∷ ms) s = (refl, refl)

    commit-IsOutbound : (s : Outbound) → IsOutbound start s → IsOutbound start (commit c s)
    unfolding commit
    commit-IsOutbound s i =
        let (q, n) = commit_rest s.message_queue (record s { message_queue = [] }) in
        record {
          numbered = commit-Numbered s.message_queue s i.numbered;
          queue_fits = rw q (omega arith);
          payloads_fit = rw q tt;
          nonce_fits = rw n i.nonce_fits;
        }

    pub on_initialize-IsOutbound :
        (now : ℕ) (s : Outbound) → IsOutbound start s → IsOutbound start (on_initialize c now s).1
    unfolding on_initialize
    on_initialize-IsOutbound now s i = elim (Bool-cases (s.interval == 0)) [
      | inl e ↦ rw e i
      | inr e ↦ elim (Bool-cases (now % s.interval == 0)) [
        | inl f ↦ rw (e, f) (commit-IsOutbound s i)
        | inr f ↦ rw (e, f) i
      ]
    ]

    queued-IsOutbound :
        (who : AccountId) (target : H160) (payload : Bytes) (s : S)
        → Accepts c who payload s
        → IsOutbound start (c.outbound.get s)
        → IsOutbound start (queued c target payload s)
    queued-IsOutbound who target payload s a i =
        let before = c.outbound.get s in
        record {
          numbered =
              subst (λ l. Numbered nonce_of start l (before.nonce + 1))
                (append_assoc (flatten before.offchain) before.message_queue _)
                (Numbered-snoc nonce_of start (sent before) before.nonce _ i.numbered refl);
          queue_fits = omega (arith, a.has_room, length-append before.message_queue _);
          payloads_fit = All-snoc Fits before.message_queue _ i.payloads_fit a.payload_fits;
          nonce_fits = a.has_nonce;
        }

    -- Where a fee that cannot be charged changes nothing and a charge leaves the channel alone, the order
    -- of the messages and the limits outlast a submission.
    pub submit-IsOutbound :
        (who : AccountId) (target : H160) (payload : Bytes) (s : S)
        → FeeIsAtomic c
        → IsOutbound start (c.outbound.get s)
        → IsOutbound start (c.outbound.get (submit c who target payload s).1)
    submit-IsOutbound who target payload s atomic i =
        elim (submit_cases c atomic who target payload s) [
          | inl a ↦
              let end =
                c.outbound.get_put (queued c target payload s)
                  (c.withdraw_fee who (c.outbound.get s).fee s).1 in
              subst (IsOutbound start)
                (sym end
                  ∙ sym (
                      ap (λ (r : Result DispatchError (Unit {0}) × S). c.outbound.get r.1)
                        (submit-Accepts c atomic who target payload s a)))
                (queued-IsOutbound who target payload s a i)
          | inr (e, same) ↦
              subst
                (λ (r : Result DispatchError (Unit {0}) × S). IsOutbound start (c.outbound.get r.1))
                (sym same) i
        ]

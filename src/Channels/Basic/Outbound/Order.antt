-- ===== src/Channels/Basic/Outbound/Order.antt =====
-- The queue and the commitments over any sequence of operations.
use polkadot_ethereum.Channels.Basic.Outbound.{
  Config, Outbound, QueuedMessage, submit, commit, on_initialize, set_principal, commit_messages,
}
use polkadot_ethereum.Core.{H160, Bytes, AccountId}
use polkadot_ethereum.Frame.{Origin, DispatchError, Result}
use polkadot_ethereum.Prelude.{
  ◌++◌, List, ℕ, ◌∷◌, ◌≤◌, ◌<◌, [], length, All, ◌≡◌, ◌⊎◌, inr, refl, ◌==◌, ◌+◌, arith, inl, ◌%◌,
  length-append, Bool-cases, subst, sym, Option-cases,
}
use polkadot_ethereum.Channels.Numbered.{
  Numbered, flatten, Numbered-snoc, All-snoc, flatten-snoc, append_assoc,
}
use polkadot_ethereum.Prelude.Word.{u64_mod}
use polkadot_ethereum.Channels.Basic.Outbound.Submit.{Accepts, queued, submit-Accepts}
use polkadot_ethereum.Channels.Basic.Outbound.Submit.{submit_cases}

abbrev pub nonce_of : QueuedMessage → ℕ
nonce_of m = m.nonce

abbrev pub Fits : Config → QueuedMessage → Type 0
Fits c m = length m.payload ≤ c.max_message_payload_size

-- All that has been accepted, committed or still queued, from the oldest.
abbrev pub sent : Outbound → List QueuedMessage
sent s = flatten s.offchain ++ s.message_queue

pub record IsOutbound (c : Config) (start : ℕ) (s : Outbound) : Type 0 where
  pub numbered : Numbered nonce_of start (sent s) s.nonce
  pub queue_fits : length s.message_queue ≤ c.max_messages_per_commit
  pub payloads_fit : All (Fits c) s.message_queue
  pub nonce_fits : s.nonce < u64_mod

module _ (c : Config) (start : ℕ) where
  commit-Numbered :
      (ms : List QueuedMessage) (s : Outbound)
      → Numbered nonce_of start (flatten s.offchain ++ ms) s.nonce
      → Numbered nonce_of start
          (sent (commit_messages c ms (record s { message_queue = [] })))
          (commit_messages c ms (record s { message_queue = [] })).nonce
  commit-Numbered [] s n = n
  commit-Numbered (m ∷ ms) s n =
      subst (λ l. Numbered nonce_of start l s.nonce) (sym (flatten-snoc s.offchain _ (m ∷ ms))) n

  commit_rest :
      (ms : List QueuedMessage) (s : Outbound)
      → ((commit_messages c ms s).message_queue ≡ s.message_queue)
        × ((commit_messages c ms s).nonce ≡ s.nonce)
  commit_rest [] s = (refl, refl)
  commit_rest (m ∷ ms) s = (refl, refl)

  commit-IsOutbound : (s : Outbound) → IsOutbound c start s → IsOutbound c start (commit c s)
  unfolding commit
  commit-IsOutbound s i =
      let (q, n) = commit_rest s.message_queue (record s { message_queue = [] }) in
      record {
        numbered = commit-Numbered s.message_queue s i.numbered;
        queue_fits = rw q (omega arith);
        payloads_fit = rw q tt;
        nonce_fits = rw n i.nonce_fits;
      }

  pub on_initialize-IsOutbound :
      (now : ℕ) (s : Outbound) → IsOutbound c start s → IsOutbound c start (on_initialize c now s).1
  unfolding on_initialize
  on_initialize-IsOutbound now s i = elim (Bool-cases (s.interval == 0)) [
    | inl e ↦ rw e i
    | inr e ↦ elim (Bool-cases (now % s.interval == 0)) [
      | inl f ↦ rw (e, f) (commit-IsOutbound s i)
      | inr f ↦ rw (e, f) i
    ]
  ]

  queued-IsOutbound :
      (who : AccountId) (target : H160) (payload : Bytes) (s : Outbound)
      → Accepts c who payload s
      → IsOutbound c start s
      → IsOutbound c start (queued c target payload s)
  queued-IsOutbound who target payload s a i = record {
    numbered =
        subst (λ l. Numbered nonce_of start l (s.nonce + 1))
          (append_assoc (flatten s.offchain) s.message_queue _)
          (Numbered-snoc nonce_of start (sent s) s.nonce _ i.numbered refl);
    queue_fits = omega (arith, a.has_room, length-append s.message_queue _);
    payloads_fit = All-snoc (Fits c) s.message_queue _ i.payloads_fit a.payload_fits;
    nonce_fits = a.has_nonce;
  }

-- The operations of the pallet: `submit` is called by the applications, the others by the runtime.
pub data Operation : Type 0 where
  submits : AccountId → H160 → Bytes → Operation
  initializes : ℕ → Operation
  sets_principal : Origin → ℕ → Operation

module _ (c : Config) where
  abbrev pub step : Operation → Outbound → Outbound
  step (submits who target payload) s = (submit c who target payload s).1
  step (initializes now) s = (on_initialize c now s).1
  step (sets_principal origin who) s = (set_principal c origin who s).1

  abbrev pub run : List Operation → Outbound → Outbound
  run [] s = s
  run (o ∷ os) s = run os (step o s)

  set_principal_keeps :
      (origin : Origin) (who : ℕ) (s : Outbound)
      → (step (sets_principal origin who) s ≡ s)
        ⊎ ((p : AccountId) × (step (sets_principal origin who) s ≡ record s { principal = p }))
  unfolding set_principal
  set_principal_keeps origin who s = elim (Bool-cases (c.set_principal_origin origin)) [
    | inr e ↦ inl (ground (arith, e))
    | inl e ↦ elim (Option-cases (c.lookup_account who)) [
      | inl f ↦ inl (ground (arith, e, f))
      | inr (p, f) ↦ inr (p, ground (arith, e, f))
    ]
  ]

  pub step-IsOutbound :
      (start : ℕ) (o : Operation) (s : Outbound)
      → IsOutbound c start s
      → IsOutbound c start (step o s)
  step-IsOutbound start (submits who target payload) s i =
      elim (submit_cases c who target payload s) [
        | inl a ↦
            subst (λ (r : Result DispatchError (Unit {0}) × Outbound). IsOutbound c start r.1)
              (sym (submit-Accepts c who target payload s a))
              (queued-IsOutbound c start who target payload s a i)
        | inr (e, same) ↦
            subst (λ (r : Result DispatchError (Unit {0}) × Outbound). IsOutbound c start r.1)
              (sym same) i
      ]
  step-IsOutbound start (initializes now) s i = on_initialize-IsOutbound c start now s i
  step-IsOutbound start (sets_principal origin who) s i = elim (set_principal_keeps origin who s) [
    | inl e ↦ subst (IsOutbound c start) (sym e) i
    | inr (p, e) ↦ subst (IsOutbound c start) (sym e) (record {
      numbered = i.numbered;
      queue_fits = i.queue_fits;
      payloads_fit = i.payloads_fit;
      nonce_fits = i.nonce_fits;
    })
  ]

-- Over any sequence of submissions, blocks and changes of the principal, the messages that have been
-- committed or are queued bear, in order, the nonces that follow the first one, none missing and none
-- twice; the queue never holds more messages, nor a longer payload, than the limits allow; and the
-- nonce stays a `u64`.
pub run-IsOutbound :
    (c : Config) (start : ℕ) (os : List Operation) (s : Outbound)
    → IsOutbound c start s
    → IsOutbound c start (run c os s)
run-IsOutbound c start [] s i = i
run-IsOutbound c start (o ∷ os) s i =
    run-IsOutbound c start os (step c o s) (step-IsOutbound c start o s i)

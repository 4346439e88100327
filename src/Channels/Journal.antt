-- ===== src/Channels/Journal.antt =====
-- What an inbound channel has handed to the message dispatch: the state of the chain, paired with the
-- ids of the dispatched messages, the latest first.
use polkadot_ethereum.Contracts.{Verifier, MessageDispatch}
use polkadot_ethereum.Core.{ChannelId, MessageId}
use polkadot_ethereum.Prelude.{◌%◌, ◌+◌, ◌<◌, ◌∷◌, List, arith, ℕ, ◌≡◌, [], ap, length}
use polkadot_ethereum.Frame.{Part}
use polkadot_ethereum.Prelude.Word.{u64_mod}

abbrev pub Recorded : Type 0 → Type 0
Recorded S = S × List MessageId

module _ {S : Type 0} where
  abbrev pub recorder : MessageDispatch S → MessageDispatch (Recorded S)
  recorder d = record {
    dispatch = λ source id payload p. (d.dispatch source id payload p.0, id ∷ p.1);
  }

  abbrev pub recorded_part : {P : Type 0} → Part S P → Part (Recorded S) P
  recorded_part part = record {
    get = λ p. part.get p.0;
    put = λ x p. (part.put x p.0, p.1);
    get_put = λ x p. part.get_put x p.0;
    put_get = λ p. ap (λ (s : S). (s, p.1)) (part.put_get p.0);
  }

  abbrev pub recorded_verifier : Verifier S → Verifier (Recorded S)
  recorded_verifier v = record {
    verify = λ message p. let (r, s) = v.verify message p.0 in (r, (s, p.1));
    reads = λ message p. ap (λ (s : S). (s, p.1)) (v.reads message p.0);
  }

-- The ids, from the oldest, bear the nonces that follow `start`, one by one modulo 2 ^ 64, and `last`
-- is the latest.
abbrev pub Consecutive : ChannelId → ℕ → List MessageId → ℕ → Type 0
Consecutive channel start [] last = last ≡ start
Consecutive channel start (id ∷ ids) last =
    (id.channel_id ≡ channel)
    × (id.nonce ≡ last)
    × ((before : ℕ) × (last ≡ (before + 1) % u64_mod) × Consecutive channel start ids before)

pub Consecutive-count :
    (channel : ChannelId) (start : ℕ) (ids : List MessageId) (last : ℕ)
    → start < u64_mod
    → Consecutive channel start ids last
    → last ≡ (start + length ids) % u64_mod
Consecutive-count channel start [] last small e = omega (arith, e, small)
Consecutive-count channel start (id ∷ ids) last small (_, _, (before, next, rest)) =
    omega (arith, next, Consecutive-count channel start ids before small rest)

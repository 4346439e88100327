-- ===== src/Runtime/Messages.antt =====
-- What messages from Ethereum keep of the chain (Kept), given what each message keeps when it is
-- dispatched.
use polkadot_ethereum.Prelude.{ℕ, inl, inr, refl, arith, subst, sym}
use polkadot_ethereum.Frame.{Origin, DispatchError, Result}
use polkadot_ethereum.Core.{AccountId, Bytes, H160, Message, MessageId}
use polkadot_ethereum.Contracts.{MessageDispatch}
use polkadot_ethereum.Channels.Basic.Inbound as BasicInbound
use polkadot_ethereum.Channels.Basic.Inbound.Cases as BasicCases
use polkadot_ethereum.Channels.Incentivized.Inbound as IncentivizedInbound
use polkadot_ethereum.Channels.Incentivized.Inbound.Cases as IncentivizedCases
use polkadot_ethereum.Runtime.{Constants, Chain}
use polkadot_ethereum.Runtime.Calls.{External}
use polkadot_ethereum.Runtime.Run.{basic_inbound_config, incentivized_inbound_config}
use polkadot_ethereum.Runtime.Kept.{Alike, Kept, same-Kept}

-- Dispatching any message keeps the chain in order.
pub record KeptBy {B O : Type 0} (k : Constants) (x : External B O) (start : Chain B)
    (d : MessageDispatch (Chain B)) : Type 0 where
  pub kept :
      (source : H160) (id : MessageId) (payload : Bytes) (s : Chain B)
      → Kept k x start s
      → Kept k x start (d.dispatch source id payload s)

module _ {B O : Type 0} (k : Constants) (x : External B O) (d : MessageDispatch (Chain B)) where
  -- Paying the relayer is a matter of the native currency alone.
  fee_apart :
      (amount : ℕ) (relayer : AccountId) (s : Chain B)
      → let t =
          IncentivizedInbound.handle_fee (incentivized_inbound_config k x d) amount relayer s in
        Alike s t
  unfolding IncentivizedInbound.handle_fee IncentivizedInbound.pay_out
  fee_apart amount relayer s = ground arith

  pub basic-Kept :
      {start : Chain B} (origin : Origin) (message : Message) (s : Chain B)
      → KeptBy k x start d
      → Kept k x start s
      → Kept k x start (BasicInbound.submit (basic_inbound_config k x d) origin message s).1
  basic-Kept {start = start} origin message s each h =
      let c = basic_inbound_config k x d in
      elim (BasicCases.submit_cases c origin message s) [
        | inl (e, bad) ↦ same-Kept s _ (ground (arith, bad)) h
        | inr (envelope, ready) ↦
            let noted = record s {
              basic_inbound = record s.basic_inbound { nonce = envelope.nonce };
            } in
            subst (λ (r : Result DispatchError (Unit {0}) × Chain B). Kept k x start r.1)
              (sym (BasicCases.submit-Delivers c origin message s envelope ready))
              (each.kept envelope.source (BasicCases.id_of c origin message s envelope)
                envelope.payload noted (same-Kept s noted (refl, refl, refl, refl, refl) h))
      ]

  pub incentivized-Kept :
      {start : Chain B} (origin : Origin) (message : Message) (s : Chain B)
      → KeptBy k x start d
      → Kept k x start s
      → Kept k x start
          (IncentivizedInbound.submit (incentivized_inbound_config k x d) origin message s).1
  incentivized-Kept {start = start} origin message s each h =
      let c = incentivized_inbound_config k x d in
      elim (IncentivizedCases.submit_cases c origin message s) [
        | inl (e, bad) ↦ same-Kept s _ (ground (arith, bad)) h
        | inr (envelope, ready) ↦
            let noted = record s {
              incentivized_inbound = record s.incentivized_inbound { nonce = envelope.nonce };
            } in
            let paid = IncentivizedCases.paid c origin message s envelope ready.sender in
            let same = fee_apart envelope.fee ready.sender noted in
            subst (λ (r : Result DispatchError (Unit {0}) × Chain B). Kept k x start r.1)
              (sym (IncentivizedCases.submit-Delivers c origin message s envelope ready))
              (each.kept envelope.source (IncentivizedCases.id_of c origin message s envelope)
                envelope.payload paid (same-Kept s paid same h))
      ]

-- ===== src/Runtime/Nested.antt =====
-- How calls that hold others run.
use polkadot_ethereum.Prelude.{some, none, inl, inr, arith, ◌≡◌, ◌⊎◌, Bool-cases}
use polkadot_ethereum.Frame.Outcome.{Result-cases}
use polkadot_ethereum.Frame.{Origin, DispatchError, ok, err}
use polkadot_ethereum.Contracts.{MessageDispatch}
use polkadot_ethereum.Runtime.{Constants, Chain}
use polkadot_ethereum.Runtime.Calls.{RuntimeCall, RuntimeCalls, External, nested, and_call}
use polkadot_ethereum.Runtime.Run.{run_with, run_all}

module _ {B O : Type 0} (k : Constants) (x : External B O) (d : MessageDispatch (Chain B))
    (origin : Origin) (s : Chain B) where
  pub nested_given :
      (o : O) (calls : RuntimeCalls O) (inner : Origin)
      → x.origin_of_nested o origin s.frame ≡ some inner
      → ((run_with k x d (nested o calls) origin s).1 ≡ s)
        ⊎ ((run_with k x d (nested o calls) origin s).1 ≡ (run_all k x d calls inner s).1)
  unfolding run_with
  nested_given o calls inner given = elim (Bool-cases (x.all_or_nothing o)) [
    | inr keeps ↦ inr (ground (arith, given, keeps))
    | inl takes_back ↦ elim (Result-cases (run_all k x d calls inner s).0) [
      | inl (u, fine) ↦ inr (ground (arith, given, takes_back, fine))
      | inr (e, bad) ↦ inl (ground (arith, given, takes_back, bad))
    ]
  ]

  pub nested_refused :
      (o : O) (calls : RuntimeCalls O)
      → x.origin_of_nested o origin s.frame ≡ none
      → run_with k x d (nested o calls) origin s ≡ (err DispatchError.bad_origin, s)
  unfolding run_with
  nested_refused o calls bad = ground (arith, bad)

  pub all_ok :
      (call : RuntimeCall O) (calls : RuntimeCalls O) (u : Unit {0})
      → (run_with k x d call origin s).0 ≡ ok u
      → run_all k x d (and_call call calls) origin s
        ≡ run_all k x d calls origin (run_with k x d call origin s).1
  unfolding run_all
  all_ok call calls u fine = ground (arith, fine)

  pub all_err :
      (call : RuntimeCall O) (calls : RuntimeCalls O) (e : DispatchError)
      → (run_with k x d call origin s).0 ≡ err e
      → run_all k x d (and_call call calls) origin s ≡ (err e, (run_with k x d call origin s).1)
  unfolding run_all
  all_err call calls e bad = ground (arith, bad)

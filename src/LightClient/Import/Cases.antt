-- ===== src/LightClient/Import/Cases.antt =====
-- The two ways in which a call of `import_header` ends: refused with no change, or past every check.
use polkadot_ethereum.Core.{AccountId, U256}
use polkadot_ethereum.Ethereum.{Header}
use polkadot_ethereum.LightClient.{Config, LightClient, EthashProofData}
use polkadot_ethereum.Prelude.{
  refl, arith, ◌+◌, ◌⊎◌, ◌≡◌, inr, ◌<◌, ◌∙◌, List, if◌then◌else◌, inl, dec_lt,
}
use polkadot_ethereum.Frame.{
  Origin, DispatchError, Origin, Origin, ok, DispatchError, Origin, err, Origin, Result,
  DispatchError,
}
use polkadot_ethereum.LightClient.Validate.Accepted.{Accepted, validate-Accepted, validate_state}
use polkadot_ethereum.Frame.Outcome.{Result-cases}
use polkadot_ethereum.Prelude.Word.{u256_mod}
use polkadot_ethereum.LightClient.Import.Steps.{
  becomes_best, new_id, import_runs, with_header, import_overflows,
}
use polkadot_ethereum.LightClient.Import.{import_header, import_validated_header, track_best}
use polkadot_ethereum.LightClient.Validate.{validate_header_to_import}

module _ (c : Config) (header : Header) (s : LightClient) where
  -- The state and result once a header with this total difficulty is stored.
  abbrev pub outcome : AccountId → U256 → Result DispatchError (Unit {0}) × LightClient
  outcome sender td =
      if becomes_best c sender header s td
      then track_best c (new_id c sender header s) td (with_header c sender header s td)
      else (ok tt, with_header c sender header s td)

  pub record Runs (origin : Origin) (end : Result DispatchError (Unit {0}) × LightClient)
      : Type 0 where
    pub sender : AccountId
    pub signed_by : origin ≡ Origin.signed sender
    pub accepted : Accepted c header s
    pub total : U256
    pub adds : total ≡ accepted.parent.total_difficulty + header.difficulty
    pub fits : total < u256_mod
    pub ends : end ≡ outcome sender total

  pub record Refused (end : Result DispatchError (Unit {0}) × LightClient) : Type 0 where
    pub error : DispatchError
    pub unchanged : end ≡ (err error, s)

  module _ (proof : List EthashProofData) where
    signed_refused :
        (sender : AccountId) (e : DispatchError)
        → (validate_header_to_import c header proof s).0 ≡ err e
        → import_header c (Origin.signed sender) header proof s ≡ (err e, s)
    unfolding import_header
    signed_refused sender e h = ground (arith, h, validate_state c header proof s)

    signed_passes :
        (sender : AccountId)
        → (validate_header_to_import c header proof s).0 ≡ ok tt
        → import_header c (Origin.signed sender) header proof s
          ≡ import_validated_header c sender header s
    unfolding import_header
    signed_passes sender h = ground (arith, h, validate_state c header proof s)

    passes_cases :
        (sender : AccountId)
        → (validate_header_to_import c header proof s).0 ≡ ok tt
        → Refused (import_header c (Origin.signed sender) header proof s)
          ⊎ Runs (Origin.signed sender) (import_header c (Origin.signed sender) header proof s)
    passes_cases sender h =
        let a : Accepted c header s = validate-Accepted c header proof s h in
        elim (dec_lt (a.parent.total_difficulty + header.difficulty) u256_mod) [
          | yes lt ↦ inr (record {
            sender = sender;
            signed_by = refl;
            accepted = a;
            total = a.parent.total_difficulty + header.difficulty;
            adds = refl;
            fits = lt;
            ends = signed_passes sender h ∙ import_runs c sender header s a.has_parent lt;
          })
          | no ge ↦ inl (record {
            error = DispatchError.other "Total difficulty overflow";
            unchanged =
                signed_passes sender h
                ∙ import_overflows c sender header s a.has_parent (omega arith);
          })
        ]

    pub import_cases :
        (origin : Origin)
        → Refused (import_header c origin header proof s)
          ⊎ Runs origin (import_header c origin header proof s)
    unfolding import_header
    import_cases Origin.root = inl (record { error = DispatchError.bad_origin; unchanged = refl })
    import_cases Origin.unsigned =
        inl (record { error = DispatchError.bad_origin; unchanged = refl })
    import_cases (Origin.ethereum a) =
        inl (record { error = DispatchError.bad_origin; unchanged = refl })
    import_cases (Origin.signed sender) =
        elim (Result-cases (validate_header_to_import c header proof s).0) [
          | inl (u, e) ↦ passes_cases sender e
          | inr (x, e) ↦ inl (record { error = x; unchanged = signed_refused sender x e })
        ]

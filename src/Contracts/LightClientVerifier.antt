-- ===== src/Contracts/LightClientVerifier.antt =====
-- The light client is the verifier of the channels.
use polkadot_ethereum.Frame.{Part, zoom}
use polkadot_ethereum.Contracts.{Verifier}
use polkadot_ethereum.LightClient.{LightClient, Config}
use polkadot_ethereum.LightClient.Validate.{verify}
use polkadot_ethereum.LightClient.Validate.Verified.{verify_state}
use polkadot_ethereum.Prelude.{◌∙◌, ap}

abbrev pub light_client_verifier : {S : Type 0} → Part S LightClient → Config → Verifier S
light_client_verifier part c = record {
  verify = λ message. zoom part (verify c message);
  reads =
      λ message s. ap (λ p. part.put p s) (verify_state c message (part.get s)) ∙ part.put_get s;
}

-- ===== src/LightClient/Tests/Work.antt =====
-- Proofs of work at the small chain of the tests, with the small crate of the tests of Ethash.
use polkadot_ethereum.Prelude.{◌≡◌, List, [], ◌∷◌, refl, arith, ℕ, zero, suc}
use polkadot_ethereum.Prelude.Eq.{nat_eq, pair_eq, list_eq}
use polkadot_ethereum.Core.{asset_eq}
use polkadot_ethereum.Frame.{Origin, err, DispatchError}
use polkadot_ethereum.Ethereum.{Header}
use polkadot_ethereum.Ethereum.Hashing
use polkadot_ethereum.Ethereum.Difficulty
use polkadot_ethereum.Ethereum.Ethash.Tests.{crate}
use polkadot_ethereum.LightClient.Import.{import_header}
use polkadot_ethereum.LightClient.Work.{with_prover, import_header-ends}
use polkadot_ethereum.LightClient.Tests.{state, config, header_at}

-- The reads of the first pair of words.
abbrev places : ℕ → List ℕ
places zero = []
places (suc n) = 0 ∷ places n

abbrev late_block : Header
late_block = header_at 15360000 1008 2049000

import_header-ends_example :
    (e : DispatchError) × (import_header
        (with_prover crate config)
        (Origin.signed 1)
        late_block
        []
        state
      ≡ (err e, state))
import_header-ends_example =
    import_header-ends crate config (Origin.signed 1) late_block [] state refl (omega arith)

-- ===== src/Assets/Tests.antt =====
-- The theorems about assets at concrete states.
use polkadot_ethereum.Core.{AssetId, eth, AccountId, U256}
use polkadot_ethereum.Prelude.{◌≤◌, ◌≡◌, ◌∷◌, arith, ◌⊎◌, refl, ◌<◌, [], List}
use polkadot_ethereum.Assets.Transfer.{Moved, transfer_exact}
use polkadot_ethereum.Assets.Sound.{operations-IsSound, IsSound}
use polkadot_ethereum.Frame.{AssetsError, Keeps, err, ok, DispatchError}
use polkadot_ethereum.Assets.{Assets, total_issuance, deposit, transfer, balance, withdraw}
use polkadot_ethereum.Prelude.Map.{lookup, insert}
use polkadot_ethereum.Assets.Sum.{sum_of}
use polkadot_ethereum.Prelude.Word.{u256_mod}
use polkadot_ethereum.Assets.Configured.{build-IsSound, Distinct, nothing}
use polkadot_ethereum.Assets.Calls.{build}

abbrev vault : Assets
vault = record {
  total_issuances = (eth, 70) ∷ (AssetId.token 9, 5) ∷ [];
  balances = ((eth, 1), 50) ∷ ((eth, 2), 20) ∷ ((AssetId.token 9, 1), 5) ∷ [];
}

backed_vault : (a : AssetId) → total_issuance a vault ≡ sum_of a vault.balances
unfolding total_issuance sum_of lookup
backed_vault eth = refl
backed_vault (AssetId.token t) = ground arith

fits_vault : (a : AssetId) → total_issuance a vault < u256_mod
unfolding total_issuance lookup
fits_vault eth = omega arith
fits_vault (AssetId.token t) = ground arith

vault-IsSound : IsSound vault
vault-IsSound = record { backed = backed_vault; fits = fits_vault }

operations-IsSound_example :
    Keeps IsSound (deposit eth 1 5)
    × Keeps IsSound (withdraw eth 1 5)
    × Keeps IsSound (transfer eth 1 2 5)
operations-IsSound_example = operations-IsSound eth 1 2 5

transfer_exact_example :
    ((balance eth 1 vault < 30)
      × (transfer eth 1 2 30 vault
          ≡ (err (DispatchError.assets AssetsError.insufficient_balance), vault)))
    ⊎ ((30 ≤ balance eth 1 vault)
        × ((transfer eth 1 2 30 vault).0 ≡ ok tt)
        × Moved eth 1 2 30 vault (transfer eth 1 2 30 vault).1)
transfer_exact_example = transfer_exact eth 1 2 30 vault vault-IsSound (omega arith) (omega arith)

transfer_run : balance eth 2 (transfer eth 1 2 30 vault).1 ≡ 50
unfolding transfer balance lookup insert
transfer_run = refl

abbrev entries : List (AssetId × AccountId × U256)
entries = (eth, 1, 50) ∷ (eth, 2, 20) ∷ (AssetId.token 9, 1, 5) ∷ []

entries_built : (build entries nothing).0 ≡ ok tt
unfolding build total_issuance lookup insert
entries_built = refl

entries-Distinct : Distinct entries
entries-Distinct = ((refl, (refl, tt)), ((refl, tt), (tt, tt)))

build-IsSound_example : IsSound (build entries nothing).1
build-IsSound_example = build-IsSound entries entries-Distinct entries_built

-- An account that is listed twice holds the last amount, and the issuance counts both.
repeated :
    (balance eth 1 (build ((eth, 1, 50) ∷ (eth, 1, 20) ∷ []) nothing).1 ≡ 20)
    × (total_issuance eth (build ((eth, 1, 50) ∷ (eth, 1, 20) ∷ []) nothing).1 ≡ 70)
unfolding build balance total_issuance lookup insert
repeated = (refl, refl)

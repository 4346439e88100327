-- ===== src/Assets/Calls.antt =====
-- The extrinsic `transfer`, `SingleAssetAdaptor`, and the genesis configuration of the assets pallet.
use polkadot_ethereum.Frame.{
  ◌>>=◌, ◌>>◌, Dispatch, DispatchError, Origin, DispatchError, pure, ensure_signed, ok_or, gets,
  modify,
}
use polkadot_ethereum.Prelude.{ℕ, List, Option, ◌∷◌, []}
use polkadot_ethereum.Core.{AccountId, U256, AssetId}
use polkadot_ethereum.Assets.{
  Assets, total_issuance, balance, deposit, transfer, withdraw, set_issuance, set_balance,
}
use polkadot_ethereum.Prelude.Word.{checked_add, u256_mod}

-- The extrinsic; `lookup_account` is `T::Lookup`.
unfoldable pub transfer_by : (ℕ → Option AccountId) → Origin → AssetId → ℕ → U256 → Dispatch Assets
transfer_by lookup_account origin asset_id dest amount = do
  who ← ensure_signed origin
  to ← ok_or (lookup_account dest) DispatchError.cannot_lookup
  transfer asset_id who to amount

-- `trait SingleAsset`
pub record SingleAsset : Type 0 where
  pub total_issuance_of : Assets → U256
  pub balance_of : AccountId → Assets → U256
  pub deposit_to : AccountId → U256 → Dispatch Assets
  pub withdraw_from : AccountId → U256 → Dispatch Assets
  pub transfer_to : AccountId → AccountId → U256 → Dispatch Assets

-- `SingleAssetAdaptor`
abbrev pub adaptor : AssetId → SingleAsset
adaptor asset_id = record {
  total_issuance_of = total_issuance asset_id;
  balance_of = balance asset_id;
  deposit_to = deposit asset_id;
  withdraw_from = withdraw asset_id;
  transfer_to = transfer asset_id;
}

-- `add_extra_genesis`: the balance is written, not added to. A sum that overflows aborts.
unfoldable pub build : List (AssetId × AccountId × U256) → Dispatch Assets
build [] = pure tt
build ((asset_id, who, amount) ∷ rest) = do
  current ← gets (total_issuance asset_id)
  new_total_issuance ← ok_or (checked_add u256_mod current amount) DispatchError.panic
  modify (set_issuance asset_id new_total_issuance)
  modify (set_balance asset_id who amount)
  build rest

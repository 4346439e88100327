-- ===== src/Xcm.antt =====
-- parachain/primitives/xcm-support/src/lib.rs: deposits and withdrawals of assets by XCM messages.
pub mod Sound
use polkadot_ethereum.Frame.Outcome.{◌>>=◌, or_err}
use polkadot_ethereum.Core.{AssetId, AccountId, Bytes, U256}
use polkadot_ethereum.Prelude.{Option, List, some, String, ℕ, ◌∷◌, none, []}
use polkadot_ethereum.Frame.{Result, DispatchError, err, ok}
use polkadot_ethereum.Assets.{Assets, deposit, withdraw}

-- The junctions and assets of XCM v0, as far as they are told apart.
pub data Junction : Type 0 where
  general_key : Bytes → Junction
  other_junction : Junction

pub data MultiAsset : Type 0 where
  concrete_fungible : List Junction → ℕ → MultiAsset
  other_asset : MultiAsset

pub data XcmError : Type 0 where
  asset_not_found : XcmError
  failed_to_transact_asset : String → XcmError

-- The decoder of an asset id, the converter of locations to accounts, and the text of an error.
pub record Transactor (Location : Type 0) : Type 0 where
  pub decode_asset_id : Bytes → Option AssetId
  pub convert : Location → Option AccountId
  pub text_of : DispatchError → String

-- `MultiLocation::last`
abbrev pub last : List Junction → Option Junction
last [] = none
last (junction ∷ []) = some junction
last (_ ∷ next ∷ rest) = last (next ∷ rest)

module _ {Location : Type 0} (t : Transactor Location) where
  abbrev pub id_of_key : Option Junction → Result XcmError AssetId
  id_of_key (some (general_key key)) =
      or_err (failed_to_transact_asset "AssetIdConversionFailed") (t.decode_asset_id key)
  id_of_key _ = err asset_not_found

  -- The amount is a `u128`, and so a `U256`.
  pub match_assets : MultiAsset → Result XcmError (AssetId × U256)
  match_assets other_asset = err asset_not_found
  match_assets (concrete_fungible id amount) = do
    asset_id ← id_of_key (last id)
    ok (asset_id, amount)

  abbrev pub account_of : Location → Result XcmError AccountId
  account_of location =
      or_err (failed_to_transact_asset "AccountIdConversionFailed") (t.convert location)

  -- The asset, the amount and the account that a call is about.
  abbrev pub arguments : MultiAsset → Location → Result XcmError (AssetId × U256 × AccountId)
  arguments asset location = do
    (asset_id, amount) ← match_assets asset
    who ← account_of location
    ok (asset_id, amount, who)

  abbrev pub settle : {A : Type 0} → A → Result DispatchError (Unit {0}) → Result XcmError A
  settle a (ok _) = ok a
  settle a (err e) = err (failed_to_transact_asset (t.text_of e))

  pub deposit_asset : MultiAsset → Location → Assets → Result XcmError (Unit {0}) × Assets
  deposit_asset asset location s = elim (arguments asset location) [
    | err e ↦ (err e, s)
    | ok (asset_id, amount, who) ↦ let (r, s') = deposit asset_id who amount s in (settle tt r, s')
  ]

  -- What was withdrawn is passed on to the executor.
  pub withdraw_asset : MultiAsset → Location → Assets → Result XcmError MultiAsset × Assets
  withdraw_asset asset location s = elim (arguments asset location) [
    | err e ↦ (err e, s)
    | ok (asset_id, amount, who) ↦
        let (r, s') = withdraw asset_id who amount s in (settle asset r, s')
  ]

-- ===== src/Assets.antt =====
-- parachain/pallets/assets/src/lib.rs: balances and total issuance of the bridged assets.
mod Sum
pub mod Sound
pub mod Exact
pub mod Transfer
pub mod Apart
pub mod Calls
pub mod Configured
mod Tests
use polkadot_ethereum.Prelude.{◌||◌, Option, none, some, ◌==◌, if◌then◌else◌}
use polkadot_ethereum.Prelude.Eq.{pair_eq, nat_eq}
use polkadot_ethereum.Prelude.Word.{u256_mod, checked_add, checked_sub}
use polkadot_ethereum.Prelude.Map.{Map, lookup, insert}
use polkadot_ethereum.Frame.{
  AssetsError, DispatchError, ok, Dispatch, gets, modify, ok_or, ◌>>=◌, ◌>>◌,
}
use polkadot_ethereum.Core.{AssetId, AccountId, U256, asset_eq}

abbrev pub get_or_zero : Option U256 → U256
get_or_zero none = 0
get_or_zero (some v) = v

pub record Assets : Type 0 where
  pub total_issuances : Map AssetId U256
  pub balances : Map (AssetId × AccountId) U256

unfoldable pub total_issuance : AssetId → Assets → U256
total_issuance asset_id s = get_or_zero (lookup asset_id s.total_issuances)

pub balance : AssetId → AccountId → Assets → U256
balance asset_id who s = get_or_zero (lookup (asset_id, who) s.balances)

abbrev pub set_balance : AssetId → AccountId → U256 → Assets → Assets
set_balance asset_id who v s = record s { balances = insert (asset_id, who) v s.balances }

abbrev pub set_issuance : AssetId → U256 → Assets → Assets
set_issuance asset_id v s = record s { total_issuances = insert asset_id v s.total_issuances }

pub deposit : AssetId → AccountId → U256 → Dispatch Assets
unfolding total_issuance balance
deposit asset_id who amount s =
    if amount == 0
    then (ok tt, s)
    else (do
      current_total_issuance ← gets (total_issuance asset_id)
      new_total_issuance ←
          ok_or (checked_add u256_mod current_total_issuance amount)
            (DispatchError.assets AssetsError.total_issuance_overflow)
      current ← gets (balance asset_id who)
      new ←
          ok_or (checked_add u256_mod current amount)
            (DispatchError.assets AssetsError.balance_overflow)
      modify (set_issuance asset_id new_total_issuance)
      modify (set_balance asset_id who new))
        s

pub withdraw : AssetId → AccountId → U256 → Dispatch Assets
unfolding total_issuance balance
withdraw asset_id who amount s =
    if amount == 0
    then (ok tt, s)
    else (do
      current_total_issuance ← gets (total_issuance asset_id)
      new_total_issuance ←
          ok_or (checked_sub current_total_issuance amount)
            (DispatchError.assets AssetsError.total_issuance_underflow)
      current ← gets (balance asset_id who)
      new ←
          ok_or (checked_sub current amount) (DispatchError.assets AssetsError.insufficient_balance)
      modify (set_issuance asset_id new_total_issuance)
      modify (set_balance asset_id who new))
        s

pub transfer : AssetId → AccountId → AccountId → U256 → Dispatch Assets
unfolding balance
transfer asset_id from to amount s =
    if amount == 0 || from == to
    then (ok tt, s)
    else (do
      from_balance ← gets (balance asset_id from)
      to_balance ← gets (balance asset_id to)
      new_from ←
          ok_or (checked_sub from_balance amount)
            (DispatchError.assets AssetsError.insufficient_balance)
      new_to ←
          ok_or (checked_add u256_mod to_balance amount)
            (DispatchError.assets AssetsError.balance_overflow)
      modify (set_balance asset_id to new_to)
      modify (set_balance asset_id from new_from))
        s

-- ===== src/Nft.antt =====
-- parachain/pallets/nft/src/lib.rs: tokens, their owners, and the index of the tokens of an owner.
pub mod Owners
pub mod Registry
pub mod Genesis
mod Tests
use polkadot_ethereum.Frame.{Call, err, Dispatch, NftError, ok, NftError, NftError, DispatchError}
use polkadot_ethereum.Core.{AccountId, Erc721TokenData, TokenInfo, Bytes, asset_eq}
use polkadot_ethereum.Prelude.{◌==◌, none, some, Option, ℕ, Bool, if◌then◌else◌, not}
use polkadot_ethereum.Prelude.Map.{Map, lookup, contains_key, erase, insert}
use polkadot_ethereum.Prelude.Word.{checked_add}
use polkadot_ethereum.Prelude.Eq.{nat_eq, pair_eq, list_eq}

-- `TokenId` is an unsigned integer of `bits` values.
pub record Nft : Type 0 where
  pub next_token_id : ℕ
  pub tokens : Map ℕ TokenInfo
  pub tokens_by_owner : Map (AccountId × ℕ) (Unit {0})

module _ (bits : ℕ) where
  pub mint : AccountId → Bytes → Erc721TokenData → Call Nft ℕ
  mint owner metadata properties s = elim (checked_add bits s.next_token_id 1) [
    | none ↦ (err (DispatchError.nft NftError.num_overflow), s)
    | some next ↦ (
      ok s.next_token_id,
      record {
        next_token_id = next;
        tokens =
            insert s.next_token_id
              (record { owner = owner; metadata = metadata; properties = properties }) s.tokens;
        tokens_by_owner = insert (owner, s.next_token_id) tt s.tokens_by_owner;
      },
    )
  ]

pub burn : AccountId → ℕ → Dispatch Nft
burn owner token_id s = elim (lookup token_id s.tokens) [
  | none ↦ (err (DispatchError.nft NftError.token_not_found), s)
  | some info ↦
      if info.owner == owner
      then (
        ok tt,
        record s {
          tokens = erase token_id s.tokens;
          tokens_by_owner = erase (owner, token_id) s.tokens_by_owner;
        },
      )
      else (err (DispatchError.nft NftError.no_permission), s)
]

pub transfer : AccountId → AccountId → ℕ → Dispatch Nft
transfer from to token_id s = elim (lookup token_id s.tokens) [
  | none ↦ (err (DispatchError.nft NftError.token_not_found), s)
  | some info ↦
      if not (info.owner == from)
      then (err (DispatchError.nft NftError.no_permission), s)
      else if from == to
      then (ok tt, s)
      else (
        ok tt,
        record s {
          tokens = insert token_id (record info { owner = to }) s.tokens;
          tokens_by_owner = insert (to, token_id) tt (erase (from, token_id) s.tokens_by_owner);
        },
      )
]

pub is_owner : AccountId → ℕ → Nft → Bool
is_owner account token_id s = contains_key (account, token_id) s.tokens_by_owner

unfoldable pub get_token_data : ℕ → Nft → Option TokenInfo
get_token_data token_id s = lookup token_id s.tokens

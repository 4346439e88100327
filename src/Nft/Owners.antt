-- ===== src/Nft/Owners.antt =====
-- The index of owners, and the ids that are still free.
use polkadot_ethereum.Prelude.{
  ◌≡◌, ◌==◌, ℕ, ◌≤◌, arith, ◌<◌, inr, ◌↔◌, none, Option-cases, Bool-cases, some, inl, ◌+◌, dec_lt,
  subst, sym,
}
use polkadot_ethereum.Core.{TokenInfo, AccountId, Erc721TokenData, Bytes, asset_eq}
use polkadot_ethereum.Prelude.Map.{lookup-erase, lookup, lookup-insert, insert, erase}
use polkadot_ethereum.Nft.{Nft, mint, burn, transfer}
use polkadot_ethereum.Frame.{Keeps, Result, err, DispatchError, ok, NftError, DispatchError}
use polkadot_ethereum.Prelude.Eq.{nat_eq, pair_eq, list_eq}

pub record IsIndexed (bits : ℕ) (s : Nft) : Type 0 where
  -- The index lists a token under an account exactly where the token records that owner.
  pub owned :
      (a : AccountId) (t : ℕ)
      → (lookup (a, t) s.tokens_by_owner ≡ some tt)
        ↔ ((i : TokenInfo) × (lookup t s.tokens ≡ some i) × (i.owner ≡ a))
  pub free : (t : ℕ) → s.next_token_id ≤ t → lookup t s.tokens ≡ none
  pub bounded : s.next_token_id < bits

module _ (bits : ℕ) where
  mint-IsIndexed :
      (owner : AccountId) (metadata : Bytes) (properties : Erc721TokenData)
      → Keeps (IsIndexed bits) (mint bits owner metadata properties)
  unfolding mint
  mint-IsIndexed owner metadata properties = record {
    at = λ s i. elim (dec_lt (s.next_token_id + 1) bits) [
      | no full ↦
          let stuck : mint bits owner metadata properties s
              ≡ (err (DispatchError.nft NftError.num_overflow), s) =
            ground arith in
          rw stuck i
      | yes room ↦
          let info : TokenInfo = record {
            owner = owner;
            metadata = metadata;
            properties = properties;
          } in
          let done : mint bits owner metadata properties s ≡ (
            ok s.next_token_id,
            record {
              next_token_id = s.next_token_id + 1;
              tokens = insert s.next_token_id info s.tokens;
              tokens_by_owner = insert (owner, s.next_token_id) tt s.tokens_by_owner;
            },
          ) =
            ground arith in
          subst (λ (r : Result DispatchError ℕ × Nft). IsIndexed bits r.1) (sym done)
            (record {
              owned = λ a u. ground (
                arith,
                i.owned a u,
                i.free u,
                lookup-insert u s.next_token_id info s.tokens,
                lookup-insert (a, u) (owner, s.next_token_id) tt s.tokens_by_owner,
              );
              free =
                  λ u le. ground (arith, i.free u, lookup-insert u s.next_token_id info s.tokens);
              bounded = room;
            })
    ];
  }

  burn-IsIndexed : (owner : AccountId) (t : ℕ) → Keeps (IsIndexed bits) (burn owner t)
  unfolding burn
  burn-IsIndexed owner t = record {
    at = λ s i. elim (Option-cases (lookup t s.tokens)) [
      | inl e ↦ rw (burn, e) i
      | inr (info, e) ↦ elim (Bool-cases (info.owner == owner)) [
        | inr f ↦ rw (burn, e, f) i
        | inl f ↦
            rw (burn, e, f)
              (record {
                owned = λ a u. ground (
                  arith,
                  i.owned a u,
                  lookup-erase (a, u) (owner, t) s.tokens_by_owner,
                  lookup-erase u t s.tokens,
                );
                free = λ u le. ground (arith, i.free u le, lookup-erase u t s.tokens);
                bounded = i.bounded;
              })
      ]
    ];
  }

  transfer-IsIndexed : (from to : AccountId) (t : ℕ) → Keeps (IsIndexed bits) (transfer from to t)
  unfolding transfer
  transfer-IsIndexed from to t = record {
    at = λ s i. elim (Option-cases (lookup t s.tokens)) [
      | inl e ↦ rw (transfer, e) i
      | inr (info, e) ↦ elim (Bool-cases (info.owner == from)) [
        | inr f ↦ rw (transfer, e, f) i
        | inl f ↦ elim (Bool-cases (from == to)) [
          | inl g ↦ rw (transfer, e, f, g) i
          | inr g ↦
              rw (transfer, e, f, g)
                (record {
                  owned = λ a u. ground (
                    arith,
                    i.owned a u,
                    lookup-erase (a, u) (from, t) s.tokens_by_owner,
                    lookup-insert (a, u) (to, t) tt (erase (from, t) s.tokens_by_owner),
                    lookup-insert u t (record info { owner = to }) s.tokens,
                  );
                  free = λ u le.
                      ground (
                        arith,
                        i.free u le,
                        lookup-insert u t (record info { owner = to }) s.tokens,
                      );
                  bounded = i.bounded;
                })
        ]
      ]
    ];
  }

-- Minting, burning and transferring tokens, successful or not, keep the index of owners in step with
-- the tokens: an account is listed with a token exactly where the token exists and records that
-- owner. They also keep the ids from the next one on free, and the next one within its type.
pub operations-IsIndexed :
    (bits : ℕ) (a b : AccountId) (t : ℕ) (metadata : Bytes) (properties : Erc721TokenData)
    → Keeps (IsIndexed bits) (mint bits a metadata properties)
      × Keeps (IsIndexed bits) (burn a t)
      × Keeps (IsIndexed bits) (transfer a b t)
operations-IsIndexed bits a b t metadata properties = (
  mint-IsIndexed bits a metadata properties,
  burn-IsIndexed bits a t,
  transfer-IsIndexed bits a b t,
)

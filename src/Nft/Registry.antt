-- ===== src/Nft/Registry.antt =====
-- The ids that the ERC721 application records for the tokens of Ethereum, and the NFTs.
use polkadot_ethereum.Prelude.{
  ◌≡◌, ◌==◌, ◌&&◌, ◌↔◌, ℕ, ◌+◌, arith, inl, inr, none, some, Bool-cases, dec_lt,
}
use polkadot_ethereum.Prelude.Eq.{nat_eq, pair_eq}
use polkadot_ethereum.Prelude.Map.{Map, lookup, insert, erase, lookup-insert, lookup-erase}
use polkadot_ethereum.Core.{AccountId, Bytes, Erc721TokenData, H160, TokenInfo, U256}
use polkadot_ethereum.Frame.{ok}
use polkadot_ethereum.Nft.{Nft, mint, burn}
use polkadot_ethereum.Nft.Owners.{IsIndexed}

abbrev pub key_of : Erc721TokenData → H160 × U256
key_of properties = (properties.token_contract, properties.token_id)

-- The id recorded for a token of Ethereum is that of the one NFT with its properties, and there is no
-- such NFT where none is recorded.
pub record IsRegistered (key : H160 × U256) (ids : Map (H160 × U256) ℕ) (n : Nft) : Type 0 where
  pub found :
      (t : ℕ)
      → (lookup key ids ≡ some t)
        ↔ ((i : TokenInfo) × (lookup t n.tokens ≡ some i) × (key_of i.properties ≡ key))

module _ (key : H160 × U256) (ids : Map (H160 × U256) ℕ) (n : Nft) where
  pub mint-IsRegistered :
      (bits : ℕ) (owner : AccountId) (metadata : Bytes) (properties : Erc721TokenData) (id : ℕ)
      → IsIndexed bits n
      → lookup (key_of properties) ids ≡ none
      → (mint bits owner metadata properties n).0 ≡ ok id
      → IsRegistered key ids n
      → IsRegistered key
          (insert (key_of properties) id ids)
          (mint bits owner metadata properties n).1
  unfolding mint
  mint-IsRegistered bits owner metadata properties id indexed new done r =
      let info : TokenInfo = record {
        owner = owner;
        metadata = metadata;
        properties = properties;
      } in
      let next = n.next_token_id in
      record {
        found = λ t.
            let by_id = lookup-insert t next info n.tokens in
            let by_key = lookup-insert key (key_of properties) id ids in
            elim (dec_lt (next + 1) bits) [
              | no full ↦ ground (arith, done)
              | yes room ↦
                  elim (Bool-cases
                    (properties.token_contract == key.0 && properties.token_id == key.1)) [
                      | inl ours ↦ elim (Bool-cases (next == t)) [
                        | inl same ↦ (
                          λ h.
                              (info, ground (arith, room, done, same, by_id), ground (arith, ours)),
                          λ h. ground (arith, room, done, ours, same, by_key),
                        )
                        | inr other ↦
                            ground (arith, room, done, new, ours, other, r.found t, by_id, by_key)
                      ]
                      | inr apart ↦ elim (Bool-cases (next == t)) [
                        | inl same ↦ ground (
                          arith,
                          room,
                          done,
                          apart,
                          same,
                          r.found t,
                          indexed.free t,
                          by_id,
                          by_key,
                        )
                        | inr other ↦
                            ground (arith, room, done, apart, other, r.found t, by_id, by_key)
                      ]
                    ]
            ];
      }

  pub burn-IsRegistered :
      (owner : AccountId) (t : ℕ) (info : TokenInfo)
      → lookup t n.tokens ≡ some info
      → (burn owner t n).0 ≡ ok tt
      → IsRegistered key ids n
      → IsRegistered key (erase (key_of info.properties) ids) (burn owner t n).1
  unfolding burn
  burn-IsRegistered owner t info there done r = record {
    found = λ u. elim (Bool-cases (info.owner == owner)) [
      | inr other ↦ ground (arith, there, done, other)
      | inl own ↦ ground (
        arith,
        there,
        own,
        r.found u,
        r.found t,
        lookup-erase u t n.tokens,
        lookup-erase key (key_of info.properties) ids,
      )
    ];
  }

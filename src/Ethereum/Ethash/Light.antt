-- ===== src/Ethereum/Ethash/Light.antt =====
-- `hashimoto_light` with its cache against Ethash without one.
use polkadot_ethereum.Core.{Bytes, H256}
use polkadot_ethereum.Prelude.{
  ℕ, List, [], ◌∷◌, Option, none, some, map, ◌≡◌, ◌<◌, ◌/◌, arith, refl,
}
use polkadot_ethereum.Ethereum.Ethash.{EthashCrate, epoch_length}
use polkadot_ethereum.Prelude.Map.{lookup}
use polkadot_ethereum.Prelude.Eq.{nat_eq}
use polkadot_ethereum.Ethereum.Ethash.Cache.{
  EthashCache, with_generator, with_hashimoto_light, hashimoto_light, get_cache_for_epoch,
}
use polkadot_ethereum.Ethereum.Ethash.Recent.{count, IsSorted}
use polkadot_ethereum.Ethereum.Ethash.Lru.{IsValid, get_answers}

-- A header hash, a nonce and a header number.
abbrev pub Request : Type 0
Request = H256 × Bytes × ℕ

module _ (crate : EthashCrate) where
  -- The result for a header, with the cache data made anew.
  unfoldable pub uncached : Request → H256 × H256
  uncached (header_hash, nonce, header_number) =
      crate.hashimoto_light header_hash nonce (crate.get_full_size (header_number / epoch_length))
        (get_cache_for_epoch crate (header_number / epoch_length))

  -- One call after the other, of one prover.
  unfoldable pub answers :
      List Request → Option EthashCache → Option (List (H256 × H256) × Option EthashCache)
  unfolding hashimoto_light
  answers [] prover = some ([], prover)
  answers ((header_hash, nonce, header_number) ∷ requests) prover =
      elim (hashimoto_light crate header_hash nonce header_number prover) [
        | none ↦ none
        | some (result, prover') ↦ elim (answers requests prover') [
          | none ↦ none
          | some (results, last) ↦ some (result ∷ results, last)
        ]
      ]

  answers_from :
      (requests : List Request) (c : EthashCache)
      → IsValid c
      → IsSorted c.recently_accessed_epochs
      → c.cache_gen_fn ≡ get_cache_for_epoch crate
      → (d : EthashCache) × (answers requests (some c) ≡ some (map (uncached) requests, some d))
        × IsValid d
        × (d.max_capacity ≡ c.max_capacity)
  unfolding answers uncached
  answers_from [] c v s g = (c, refl, v, refl)
  answers_from ((header_hash, nonce, header_number) ∷ requests) c v s g =
      let (d, got, a, sorted) = get_answers (header_number / epoch_length) header_number c v s in
      let (last, done, valid, cap) =
        answers_from requests d a.is_valid sorted (ground (arith, a.same_generator, g)) in
      (last, ground (arith, got, g, done), valid, ground (arith, cap, a.same_capacity))

-- A prover that may keep at least one cache answers any sequence of calls, for headers of whatever
-- epochs, without a panic and as if the cache data were made anew for each header; in the end it keeps
-- the caches of at most so many epochs, each as it is made for its epoch.
pub hashimoto_light-refines :
    (crate : EthashCrate) (max : ℕ) (requests : List Request)
    → 0 < max
    → (start : Option EthashCache) × (with_hashimoto_light crate max ≡ some start)
      × ((d : EthashCache) × (answers crate requests start
            ≡ some (map (uncached crate) requests, some d))
          × IsValid d
          × (d.max_capacity ≡ max))
unfolding with_hashimoto_light with_generator
hashimoto_light-refines crate max requests lt =
    let c : EthashCache = record {
      max_capacity = max;
      caches_by_epoch = [];
      recently_accessed_epochs = [];
      cache_gen_fn = get_cache_for_epoch crate;
    } in
    let v : IsValid c = record {
      positive = lt;
      bounded = omega arith;
      once = λ e. unfold count in omega arith;
      agrees = λ e. unfold count lookup in refl;
    } in
    (some c, ground (arith, lt), answers_from crate requests c v tt refl)

-- ===== src/Ethereum/Ethash/Tests.antt =====
-- The theorems on Ethash with a small crate: 128 lookups of the words 0 and 1, and a hash that is the
-- root of epoch 0 whatever is hashed.
use polkadot_ethereum.Core.{Bytes}
use polkadot_ethereum.Frame.{ok}
use polkadot_ethereum.Prelude.{
  ℕ, List, [], ◌∷◌, ◌++◌, some, Option, length, map, ◌≡◌, ◌+◌, ◌-◌, ◌%◌, ◌≤◌, refl, arith, zero,
  suc, subst,
}
use polkadot_ethereum.Prelude.Map.{lookup, contains_key, insert, erase}
use polkadot_ethereum.Prelude.Eq.{nat_eq}
use polkadot_ethereum.Ethereum.Ethash.{
  EthashCrate, Lookups, finished, looks_up, hashimoto_merkle, dag_merkle_root, be_bytes, zeros,
  leaf_hash, truncate_to_h128,
}
use polkadot_ethereum.Ethereum.Ethash.Roots.{dags_merkle_roots}
use polkadot_ethereum.Ethereum.Ethash.Tree.{Tree, leaf, leaf_at, root, path_at, prove, IsHash}
use polkadot_ethereum.Ethereum.Ethash.Proved.{ReadsPairs, AreSized, full_hashimoto}
use polkadot_ethereum.Ethereum.Ethash.Honest.{pairs_read, hashimoto_merkle_complete}
use polkadot_ethereum.Ethereum.Ethash.Cache.{EthashCache, get, with_hashimoto_light}
use polkadot_ethereum.Ethereum.Ethash.Recent.{count, IsSorted}
use polkadot_ethereum.Ethereum.Ethash.Lru.{IsValid, Accesses, get_answers}
use polkadot_ethereum.Ethereum.Ethash.Light.{Request, uncached, answers, hashimoto_light-refines}

-- So many lookups, which end with the given results.
abbrev pub lookups : ℕ → Lookups
lookups zero = finished (0, 0)
lookups (suc n) = looks_up ((n + 1) % 2) (λ bytes. lookups n)

abbrev root_0 : Bytes
root_0 =
    0x55 ∷ 0xb8 ∷ 0x91 ∷ 0xe8 ∷ 0x42 ∷ 0xe5 ∷ 0x8f ∷ 0x58 ∷ 0x95 ∷ 0x6a ∷ 0x84 ∷ 0x7c ∷ 0xbb ∷ 0xf6
    ∷ 0x78 ∷ 0x21 ∷ []

abbrev pub crate : EthashCrate
crate = record {
  sha2_256 = λ bytes. zeros 16 ++ root_0;
  get_full_size = λ epoch. 1073739904;
  hashimoto_with_hasher = λ header_hash nonce full_size. lookups 128;
  hashimoto_light = λ header_hash nonce full_size cache. (header_hash, length cache);
  get_seedhash = λ epoch. epoch;
  get_cache_size = λ epoch. epoch + 3;
  make_cache = λ size seed. zeros size;
}

abbrev pub dataset : Tree 0
dataset = leaf (zeros 64, zeros 64)

pub crate-IsHash : IsHash crate
crate-IsHash = record { sized = λ bytes. refl }

pub root_of_epoch_0 : dag_merkle_root 0 ≡ some (root crate dataset)
unfolding dag_merkle_root dags_merkle_roots be_bytes root leaf_hash truncate_to_h128
root_of_epoch_0 = refl

lookups-ReadsPairs :
    (n last : ℕ) → n ≤ 128 → (n % 2 ≡ 1 → last ≡ 0) → ReadsPairs (128 - n) last (lookups n)
lookups-ReadsPairs zero last le e = refl
lookups-ReadsPairs (suc n) last le e = (
  omega (arith, le),
  λ p. omega (arith, p, le),
  λ p. omega (arith, p, le, e),
  λ bytes.
      subst (λ idx. ReadsPairs idx ((n + 1) % 2) (lookups n)) (omega (arith, le))
        (lookups-ReadsPairs n ((n + 1) % 2) (omega (arith, le)) (λ p. omega (arith, p))),
)

pub crate_reads : ReadsPairs 0 0 (lookups 128)
crate_reads = lookups-ReadsPairs 128 0 (omega arith) (λ e. refl)

pub proved-AreSized : (places : List ℕ) → AreSized (map (prove crate dataset) places)
unfolding prove leaf_at path_at
proved-AreSized [] = tt
proved-AreSized (place ∷ places) = ((refl, refl, tt), proved-AreSized places)

hashimoto_merkle_complete_example :
    hashimoto_merkle crate 5 [] 3 (map (prove crate dataset) (pairs_read dataset 0 (lookups 128)))
    ≡ ok (full_hashimoto dataset (lookups 128))
hashimoto_merkle_complete_example =
    hashimoto_merkle_complete crate dataset 5 [] 3 (omega arith) root_of_epoch_0 crate_reads

-- Two epochs in a cache of one: the older one is forgotten.
abbrev requests : List Request
requests = (5, [], 3) ∷ (6, [], 30001) ∷ (7, [], 30002) ∷ []

hashimoto_light-refines_example :
    (start : Option EthashCache) × (with_hashimoto_light crate 1 ≡ some start)
    × ((d : EthashCache) × (answers crate requests start
          ≡ some (map (uncached crate) requests, some d))
        × IsValid d
        × (d.max_capacity ≡ 1))
hashimoto_light-refines_example = hashimoto_light-refines crate 1 requests (omega arith)

abbrev full_cache : EthashCache
full_cache = record {
  max_capacity = 1;
  caches_by_epoch = (0, zeros 3) ∷ [];
  recently_accessed_epochs = (3, 0) ∷ [];
  cache_gen_fn = λ epoch. zeros (epoch + 3);
}

full_cache-IsValid : IsValid full_cache
unfolding count lookup
full_cache-IsValid = record {
  positive = omega arith;
  bounded = omega arith;
  once = λ e. ground arith;
  agrees = λ e. ground arith;
}

get_answers_example :
    (d : EthashCache) × (get 1 30001 full_cache ≡ some (zeros 4, d))
    × Accesses 1 full_cache d
    × IsSorted d.recently_accessed_epochs
get_answers_example = get_answers 1 30001 full_cache full_cache-IsValid (tt, tt)

forgets_oldest :
    get 1 30001 full_cache
    ≡ some (
      zeros 4,
      record full_cache {
        caches_by_epoch = (1, zeros 4) ∷ [];
        recently_accessed_epochs = (30001, 1) ∷ [];
      },
    )
unfolding get contains_key lookup insert erase
forgets_oldest = refl

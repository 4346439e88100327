-- ===== src/Ethereum/Ethash/Cache.antt =====
-- parachain/primitives/ethereum/src/ethashproof.rs: `EthashCache`, which keeps the caches of the
-- epochs that were asked for last, and `EthashProver::hashimoto_light`, which uses it.
-- `none` is a panic: of `unwrap`, of `assert!`, or of a prover without a cache.
use polkadot_ethereum.Core.{Bytes, H256}
use polkadot_ethereum.Prelude.{
  ℕ, List, [], ◌∷◌, Option, none, some, Bool, true, false, ◌&&◌, ◌||◌, if◌then◌else◌, ◌++◌, ◌/◌,
  ◌==◌, ltb, leb, length,
}
use polkadot_ethereum.Prelude.Eq.{nat_eq}
use polkadot_ethereum.Prelude.Map.{Map, lookup, insert, erase, contains_key}
use polkadot_ethereum.Ethereum.Ethash.{EthashCrate, epoch_length}

pub record EthashCache : Type 0 where
  pub max_capacity : ℕ
  pub caches_by_epoch : Map ℕ Bytes
  -- pairs of a timestamp and an epoch
  pub recently_accessed_epochs : List (ℕ × ℕ)
  pub cache_gen_fn : ℕ → Bytes

-- `with_generator`, and `new` with the generator of the crate
unfoldable pub with_generator : ℕ → (ℕ → Bytes) → Option EthashCache
with_generator max cache_gen_fn =
    if ltb 0 max
    then some (record {
      max_capacity = max;
      caches_by_epoch = [];
      recently_accessed_epochs = [];
      cache_gen_fn = cache_gen_fn;
    })
    else none

-- The order of pairs, and `sort`
abbrev pub pair_leb : ℕ × ℕ → ℕ × ℕ → Bool
pair_leb a b = ltb a.0 b.0 || (a.0 == b.0 && leb a.1 b.1)

unfoldable pub insert_sorted : ℕ × ℕ → List (ℕ × ℕ) → List (ℕ × ℕ)
insert_sorted p [] = p ∷ []
insert_sorted p (q ∷ qs) = if pair_leb p q then p ∷ q ∷ qs else q ∷ insert_sorted p qs

unfoldable pub sort : List (ℕ × ℕ) → List (ℕ × ℕ)
unfolding insert_sorted
sort [] = []
sort (p ∷ ps) = insert_sorted p (sort ps)

-- The new timestamp of the first pair of the epoch, if there is one.
unfoldable pub touch : ℕ → ℕ → List (ℕ × ℕ) → Option (List (ℕ × ℕ))
touch epoch timestamp [] = none
touch epoch timestamp (p ∷ ps) = elim (p.1 == epoch) [
  | true ↦ some ((timestamp, p.1) ∷ ps)
  | false ↦ elim (touch epoch timestamp ps) [ none ↦ none | some qs ↦ some (p ∷ qs) ]
]

-- The entry that makes room where the cache is full: the first one is given to the new epoch.
unfoldable pub replace_first : ℕ → ℕ → EthashCache → Option EthashCache
replace_first epoch timestamp c = elim c.recently_accessed_epochs [
  | [] ↦ none
  | p ∷ ps ↦ some (record c {
    caches_by_epoch = erase p.1 c.caches_by_epoch;
    recently_accessed_epochs = (timestamp, epoch) ∷ ps;
  })
]

unfoldable pub make_room : ℕ → ℕ → EthashCache → Option EthashCache
unfolding replace_first
make_room epoch timestamp c =
    if length c.recently_accessed_epochs == c.max_capacity
    then replace_first epoch timestamp c
    else some (record c {
      recently_accessed_epochs = c.recently_accessed_epochs ++ (timestamp, epoch) ∷ [];
    })

-- The two branches of `get`.
unfoldable pub access : ℕ → ℕ → EthashCache → Option EthashCache
unfolding touch make_room
access epoch timestamp c =
    if contains_key epoch c.caches_by_epoch
    then elim (touch epoch timestamp c.recently_accessed_epochs) [
      | none ↦ none
      | some touched ↦ some (record c { recently_accessed_epochs = touched })
    ]
    else elim (make_room epoch timestamp c) [
      | none ↦ none
      | some room ↦ some (record room {
        caches_by_epoch = insert epoch (room.cache_gen_fn epoch) room.caches_by_epoch;
      })
    ]

unfoldable pub get : ℕ → ℕ → EthashCache → Option (Bytes × EthashCache)
unfolding access sort
get epoch timestamp c = elim (access epoch timestamp c) [
  | none ↦ none
  | some d ↦ elim (lookup epoch d.caches_by_epoch) [
    | none ↦ none
    | some cache ↦
        some (cache, record d { recently_accessed_epochs = sort d.recently_accessed_epochs })
  ]
]

module _ (crate : EthashCrate) where
  unfoldable pub get_cache_for_epoch : ℕ → Bytes
  get_cache_for_epoch epoch =
      crate.make_cache (crate.get_cache_size epoch) (crate.get_seedhash epoch)

  -- The state of a prover: `dags_cache`
  unfoldable pub with_hashimoto_light : ℕ → Option (Option EthashCache)
  unfolding get_cache_for_epoch with_generator
  with_hashimoto_light max = elim (with_generator max get_cache_for_epoch) [
    | none ↦ none
    | some c ↦ some (some c)
  ]

  unfoldable pub hashimoto_light :
      H256 → Bytes → ℕ → Option EthashCache → Option ((H256 × H256) × Option EthashCache)
  unfolding get
  hashimoto_light header_hash nonce header_number none = none
  hashimoto_light header_hash nonce header_number (some c) =
      elim (get (header_number / epoch_length) header_number c) [
        | none ↦ none
        | some (cache, c') ↦ some (
          crate.hashimoto_light header_hash nonce
              (crate.get_full_size (header_number / epoch_length)) cache,
          some c',
        )
      ]

-- ===== src/LightClient/Genesis.antt =====
-- `initialize_storage` and the genesis configuration. Here `panic` is a `U256` sum that overflows.
pub mod Reached
pub mod Marks
use polkadot_ethereum.Ethereum.Hashing
use polkadot_ethereum.Frame.{
  ◌>>=◌, ◌>>◌, DispatchError, Dispatch, DispatchError, Call, pure, map_err, ok_or, raise, modify,
  ensure, gets,
}
use polkadot_ethereum.Prelude.{
  List, ◌==◌, suc, ◌%◌, none, false, ◌||◌, true, zero, ◌+◌, some, ℕ, ◌∷◌, if◌then◌else◌, [], length,
  ltb,
}
use polkadot_ethereum.Core.{U256, H256, asset_eq}
use polkadot_ethereum.LightClient.{StoredHeader, Config, LightClient}
use polkadot_ethereum.Ethereum.{Header, HeaderId}
use polkadot_ethereum.Prelude.Map.{Map, lookup, insert}
use polkadot_ethereum.LightClient.Import.{insert_header, nth_ancestor}
use polkadot_ethereum.Prelude.Word.{checked_add, u256_mod, u64_mod}
use polkadot_ethereum.Prelude.Eq.{nat_eq, pair_eq, list_eq}

-- The sum of `U256`s that aborts on overflow.
abbrev add_or_panic : U256 → U256 → Call LightClient U256
add_or_panic a b = ok_or (checked_add u256_mod a b) DispatchError.panic

-- The loop that marks a header and its stored ancestors, given one step for each stored header.
unfoldable pub mark_ancestors : ℕ → H256 → Map H256 StoredHeader → Map H256 StoredHeader
mark_ancestors zero hash m = m
mark_ancestors (suc n) hash m = elim (lookup hash m) [
  | none ↦ m
  | some stored ↦
      mark_ancestors n stored.header.parent_hash
        (insert hash (record stored { finalized = true }) m)
]

-- Storage before genesis: every item at its default.
abbrev pub empty : LightClient
empty = record {
  best_block = (record { number = 0; hash = 0 }, 0);
  blocks_to_prune = record { oldest_unpruned_block = 0; oldest_block_to_keep = 0 };
  finalized_block = record { number = 0; hash = 0 };
  headers = [];
  headers_by_number = [];
}

module _ (c : Config) where
  abbrev pub id_of : Header → HeaderId
  id_of header = record { number = header.number; hash = Hashing.compute_hash c.codec header }

  -- The closure `insert_header_fn`
  unfoldable pub insert_initial : Header → U256 → LightClient → LightClient
  unfolding insert_header
  insert_initial header total_difficulty =
      insert_header (Hashing.compute_hash c.codec header) (record {
        submitter = none;
        header = header;
        total_difficulty = total_difficulty;
        finalized = false;
      })

  -- The loop over the headers after the first: the number of the one before, and the best so far.
  unfoldable pub insert_rest :
      ℕ → HeaderId × U256 → List Header → Call LightClient (HeaderId × U256)
  unfolding insert_initial
  insert_rest previous best [] = pure best
  insert_rest previous best (header ∷ headers) = do
    ensure (header.number == previous || header.number == (previous + 1) % u64_mod)
        (DispatchError.other "Headers must be in order")
    found ← gets (λ s. lookup header.parent_hash s.headers)
    parent ← ok_or found (DispatchError.other "Missing parent header")
    total_difficulty ← add_or_panic parent.total_difficulty header.difficulty
    modify (insert_initial header total_difficulty)
    insert_rest header.number
        (if ltb best.1 total_difficulty then (id_of header, total_difficulty) else best) headers

  -- The ancestor that is final, and the marks.
  unfoldable pub finalize_initial : ℕ → HeaderId → LightClient → LightClient
  unfolding nth_ancestor mark_ancestors
  finalize_initial descendants_until_final best s =
      elim (nth_ancestor descendants_until_final best.hash s) [
        | none ↦ s
        | some (hash, header) ↦ record s {
          finalized_block = record { number = header.number; hash = hash };
          headers = mark_ancestors (length s.headers) hash s.headers;
        }
      ]

  unfoldable pub initialize_storage : List Header → U256 → ℕ → Dispatch LightClient
  unfolding insert_rest finalize_initial insert_initial
  initialize_storage [] initial_difficulty descendants_until_final =
      raise (DispatchError.other "Need at least one header")
  initialize_storage (oldest ∷ headers) initial_difficulty descendants_until_final = do
    modify (insert_initial oldest initial_difficulty)
    best ← insert_rest oldest.number (id_of oldest, initial_difficulty) headers
    modify (λ s. record s { best_block = best })
    modify (finalize_initial descendants_until_final best.0)

  -- The `build` of the genesis configuration, a panic where `unwrap` panics.
  unfoldable pub genesis : Header → U256 → Dispatch LightClient
  unfolding initialize_storage
  genesis initial_header initial_difficulty = do
    map_err DispatchError.panic (initialize_storage (initial_header ∷ []) initial_difficulty 0)
    modify (λ s. record s {
      blocks_to_prune = record {
        oldest_unpruned_block = initial_header.number;
        oldest_block_to_keep = initial_header.number;
      };
    })

-- ===== src/LightClient/Genesis/Reached.antt =====
-- The states that the light client can reach from genesis.
use polkadot_ethereum.Ethereum.Hashing
use polkadot_ethereum.Prelude.Map.{insert}
use polkadot_ethereum.LightClient.Import.Finality.{import_header-IsLinked, IsLinked}
use polkadot_ethereum.LightClient.{EthashProofData, Config, LightClient, ancestry, ancestry_from}
use polkadot_ethereum.Core.{U256}
use polkadot_ethereum.Prelude.{none, List, ◌<◌, arith, ◌∷◌, true, ◌≡◌, ◌≢◌, [], subst, sym}
use polkadot_ethereum.LightClient.Import.Best.{import_header-IsBest, IsBest}
use polkadot_ethereum.Frame.{DispatchError, Origin, Result, ok}
use polkadot_ethereum.Ethereum.{Header}
use polkadot_ethereum.LightClient.Import.Chained.{IsUnforeseen}
use polkadot_ethereum.LightClient.Genesis.{
  id_of, genesis, initialize_storage, empty, insert_rest, finalize_initial, insert_initial,
  mark_ancestors,
}
use polkadot_ethereum.Prelude.Map.{lookup}
use polkadot_ethereum.Prelude.Word.{u64_mod}
use polkadot_ethereum.LightClient.Import.{import_header, insert_header, nth_ancestor}

-- The state that genesis leaves.
abbrev first_state : Config → Header → U256 → LightClient
first_state c header difficulty = record {
  best_block = (id_of c header, difficulty);
  blocks_to_prune = record {
    oldest_unpruned_block = header.number;
    oldest_block_to_keep = header.number;
  };
  finalized_block = id_of c header;
  headers =
      (
        Hashing.compute_hash c.codec header,
        record {
          submitter = none;
          header = header;
          total_difficulty = difficulty;
          finalized = true;
        },
      )
      ∷ [];
  headers_by_number = (header.number, Hashing.compute_hash c.codec header ∷ []) ∷ [];
}

-- Genesis succeeds, whatever the header: it is the best block and final.
genesis_state :
    (c : Config) (header : Header) (difficulty : U256)
    → genesis c header difficulty empty ≡ (ok tt, first_state c header difficulty)
unfolding genesis initialize_storage insert_rest finalize_initial insert_initial insert_header
    nth_ancestor ancestry ancestry_from mark_ancestors lookup insert
genesis_state c header difficulty = ground arith

-- Genesis with a header, then any imports, each of a header with a 64-bit number and a hash that no
-- stored header names as its parent's.
pub data Reached (c : Config) : LightClient → Type 0 where
  starts :
      (header : Header) (difficulty : U256)
      → header.number < u64_mod
      → header.parent_hash ≢ Hashing.compute_hash c.codec header
      → Reached c (genesis c header difficulty empty).1
  imports :
      {s : LightClient}
      → Reached c s
      → (origin : Origin) (header : Header) (proof : List EthashProofData) → header.number < u64_mod
      → IsUnforeseen (Hashing.compute_hash c.codec header) s.headers
      → Reached c (import_header c origin header proof s).1

module _ (c : Config) (header : Header) (difficulty : U256) where
  first-IsLinked :
      header.number < u64_mod
      → header.parent_hash ≢ Hashing.compute_hash c.codec header
      → IsLinked (first_state c header difficulty).headers
  unfolding lookup
  first-IsLinked small ne = record {
    chained = record { linked = λ h x y e f. ground (arith, ne) };
    sized = λ h x e. ground (arith, small);
  }

  first-IsBest : IsBest (first_state c header difficulty)
  unfolding lookup
  first-IsBest = record { highest = λ h x e. ground arith }

-- Where proofs of work are verified, in every state that is reached from genesis the numbers of the
-- stored headers grow along the parent links and fit in 64 bits, and no stored header has a higher
-- total difficulty than the one recorded for the best block.
pub Reached-IsLinked :
    (c : Config) (s : LightClient)
    → c.verify_pow ≡ true
    → Reached c s
    → IsLinked s.headers × IsBest s
Reached-IsLinked c s pow (starts header difficulty small ne) =
    subst (λ (r : Result DispatchError (Unit {0}) × LightClient). IsLinked r.1.headers × IsBest r.1)
      (sym (genesis_state c header difficulty))
      (first-IsLinked c header difficulty small ne, first-IsBest c header difficulty)
Reached-IsLinked c s pow (imports {s = t} before origin header proof small unforeseen) =
    let (linked, best) = Reached-IsLinked c t pow before in
    (
      import_header-IsLinked c origin header proof t pow small unforeseen linked,
      (import_header-IsBest c origin header proof t pow best).0,
    )

-- Any number of such imports.
pub data Imports (c : Config) (s : LightClient) : LightClient → Type 0 where
  stays : Imports c s s
  continues :
      {t : LightClient}
      → Imports c s t
      → (origin : Origin) (header : Header) (proof : List EthashProofData) → header.number < u64_mod
      → IsUnforeseen (Hashing.compute_hash c.codec header) t.headers
      → Imports c s (import_header c origin header proof t).1

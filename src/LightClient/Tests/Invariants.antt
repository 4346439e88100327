-- ===== src/LightClient/Tests/Invariants.antt =====
-- The invariants of the light client, at the small chain of the tests and from genesis.
use polkadot_ethereum.Prelude.{◌≢◌}
use polkadot_ethereum.LightClient.Import.{insert_header}
use polkadot_ethereum.LightClient.Import.Finality.{import_header-IsLinked, IsLinked}
use polkadot_ethereum.Prelude.Map.{lookup, insert}
use polkadot_ethereum.LightClient.{LightClient, ancestry, ancestry_from}
use polkadot_ethereum.Prelude.{◌↔◌, arith, refl, ◌≤◌, [], In}
use polkadot_ethereum.Ethereum.{Header}
use polkadot_ethereum.LightClient.Ancestry.{Ancestor, Stores, ancestry_iff, above, self}
use polkadot_ethereum.Core.{asset_eq}
use polkadot_ethereum.LightClient.Import.Chained.{IsUnforeseen}
use polkadot_ethereum.Frame.{Origin}
use polkadot_ethereum.LightClient.Import.Best.{import_header-IsBest, IsBest}
use polkadot_ethereum.LightClient.Import.{import_header, nth_ancestor}
use polkadot_ethereum.Prelude.Eq.{nat_eq, pair_eq, list_eq}
use polkadot_ethereum.Ethereum.Hashing
use polkadot_ethereum.LightClient.Genesis.Reached.{Reached-IsLinked, Reached, imports, starts}
use polkadot_ethereum.LightClient.Genesis.{
  genesis, empty, initialize_storage, insert_rest, finalize_initial, insert_initial, mark_ancestors,
}
use polkadot_ethereum.LightClient.Tests.{
  block_9-IsUnforeseen, chain-IsLinked, state-IsBest, chain-IsChained, codec, config, header_at,
  block_7, state, chain, block_9, block_8,
}
use polkadot_ethereum.LightClient.Genesis.Marks.{IsMarked, mark_ancestors-IsMarked}

ancestry_iff_example :
    In (1007, block_7.header) (ancestry 1008 state)
    ↔ (Ancestor chain 1007 1008 × Stores chain 1007 block_7.header)
ancestry_iff_example = ancestry_iff 1008 1007 block_7.header state chain-IsChained

mark_ancestors-IsMarked_example : IsMarked 1007 (mark_ancestors 2 1008 chain)
unfolding lookup
mark_ancestors-IsMarked_example =
    mark_ancestors-IsMarked chain 1008 1007 chain-IsChained
      (above {stored = block_8} refl (self {stored = block_7} refl))

import_header-IsLinked_example :
    IsLinked (import_header config (Origin.signed 1) block_9 [] state).1.headers
import_header-IsLinked_example =
    import_header-IsLinked config (Origin.signed 1) block_9 [] state refl (omega arith)
      block_9-IsUnforeseen chain-IsLinked

import_header-IsBest_example :
    IsBest (import_header config (Origin.signed 1) block_9 [] state).1
    × (7048000 ≤ (import_header config (Origin.signed 1) block_9 [] state).1.best_block.1)
import_header-IsBest_example =
    import_header-IsBest config (Origin.signed 1) block_9 [] state refl state-IsBest

-- Genesis with block 7, and the import of a block 8.
abbrev block_8_child : Header
block_8_child = header_at 8 1007 2049000

abbrev first : LightClient
first = (genesis config block_7.header 5000000 empty).1

block_8-IsUnforeseen : IsUnforeseen (Hashing.compute_hash codec block_8_child) first.headers
unfolding genesis initialize_storage insert_rest finalize_initial insert_initial insert_header
    nth_ancestor ancestry ancestry_from mark_ancestors lookup insert Hashing.compute_hash
    Hashing.rlp Hashing.stream_fields Hashing.stream_length
block_8-IsUnforeseen = record { no_child = λ h x e. ground arith }

hash_7-differs : block_7.header.parent_hash ≢ Hashing.compute_hash codec block_7.header
unfolding Hashing.compute_hash Hashing.rlp Hashing.stream_fields Hashing.stream_length
hash_7-differs = λ e. omega (arith, e)

block_8-Reached : Reached config (import_header config (Origin.signed 1) block_8_child [] first).1
block_8-Reached =
    imports (starts block_7.header 5000000 (omega arith) hash_7-differs) (Origin.signed 1)
      block_8_child [] (omega arith) block_8-IsUnforeseen

Reached-IsLinked_example :
    IsLinked (import_header config (Origin.signed 1) block_8_child [] first).1.headers
    × IsBest (import_header config (Origin.signed 1) block_8_child [] first).1
Reached-IsLinked_example =
    Reached-IsLinked config (import_header config (Origin.signed 1) block_8_child [] first).1 refl
      block_8-Reached

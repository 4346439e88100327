-- ===== src/LightClient/Import/Safety.antt =====
-- Finality only moves forward along one chain: `FinalizedBlock` under an import.
use polkadot_ethereum.Core.{H256, asset_eq}
use polkadot_ethereum.Ethereum.{Header, HeaderId}
use polkadot_ethereum.Ethereum.Hashing
use polkadot_ethereum.LightClient.{Config, LightClient, StoredHeader}
use polkadot_ethereum.LightClient.Ancestry.{Ancestor, Headers}
use polkadot_ethereum.Prelude.Map.{insert}
use polkadot_ethereum.Prelude.{◌≡◌, ◌<◌, ◌⊎◌}
use polkadot_ethereum.LightClient.Validate.Accepted.{Accepted}
use polkadot_ethereum.Prelude.Eq.{nat_eq, pair_eq, list_eq}

module _ (c : Config) (header : Header) (s : LightClient) (a : Accepted c header s) where
  abbrev hash : H256
  hash = Hashing.compute_hash c.codec header

  module _ (new : StoredHeader) (is_new : new.header ≡ header) where
    abbrev grown : Headers
    grown = insert hash new s.headers

-- What an import may do to finality: leave it, or move it to a younger header that descends from the
-- finalized one by parent links, the new header being stored.
abbrev pub Extends : Config → Header → LightClient → HeaderId → Type 0
Extends c header s next =
    (next ≡ s.finalized_block)
    ⊎ ((new : StoredHeader) × (new.header ≡ header)
        × (s.finalized_block.number < next.number)
        × Ancestor (insert (Hashing.compute_hash c.codec header) new s.headers)
            s.finalized_block.hash next.hash)

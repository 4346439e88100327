-- ===== src/LightClient/Ancestry/Count.antt =====
-- How many stored headers have a number up to a bound: the steps that a walk to parents can take.
use polkadot_ethereum.Core.{H256, asset_eq}
use polkadot_ethereum.LightClient.{StoredHeader}
use polkadot_ethereum.Prelude.{
  ◌≡◌, ◌<◌, ◌∷◌, ◌+◌, ◌≤◌, ℕ, some, arith, if◌then◌else◌, [], length, leb,
}
use polkadot_ethereum.Prelude.Map.{Map, lookup}
use polkadot_ethereum.Prelude.Eq.{nat_eq, pair_eq, list_eq}

unfoldable pub count_to : ℕ → Map H256 StoredHeader → ℕ
count_to k [] = 0
count_to k ((h, stored) ∷ m) = (if leb stored.header.number k then 1 else 0) + count_to k m

pub count_to-le-length : (k : ℕ) (m : Map H256 StoredHeader) → count_to k m ≤ length m
unfolding count_to
count_to-le-length k [] = omega arith
count_to-le-length k ((h, stored) ∷ m) = ground (arith, count_to-le-length k m)

pub count_to_mono : (k l : ℕ) (m : Map H256 StoredHeader) → k ≤ l → count_to k m ≤ count_to l m
unfolding count_to
count_to_mono k l [] h = omega arith
count_to_mono k l ((j, stored) ∷ m) h = ground (arith, count_to_mono k l m h)

-- A stored header adds itself to the count of its number.
pub count_to_grows :
    (k : ℕ) (h : H256) {stored : StoredHeader} (m : Map H256 StoredHeader)
    → lookup h m ≡ some stored
    → k < stored.header.number
    → count_to k m < count_to stored.header.number m
unfolding count_to lookup
count_to_grows k h [] e lt = cc
count_to_grows k h {stored} ((j, st) ∷ m) e lt =
    ground (arith, count_to_grows k h {stored = stored} m, count_to_mono k stored.header.number m)

pub count_to_pos :
    (h : H256) {stored : StoredHeader} (m : Map H256 StoredHeader)
    → lookup h m ≡ some stored
    → 0 < count_to stored.header.number m
unfolding count_to lookup
count_to_pos h [] e = cc
count_to_pos h {stored} ((j, st) ∷ m) e = ground (arith, count_to_pos h {stored = stored} m)

-- ===== src/LightClient/Import/Best.antt =====
-- `BestBlock` under an import.
use polkadot_ethereum.Core.{H256, AccountId, U256, asset_eq}
use polkadot_ethereum.Ethereum.{Header}
use polkadot_ethereum.Ethereum.Hashing
use polkadot_ethereum.LightClient.{Config, LightClient, StoredHeader, EthashProofData}
use polkadot_ethereum.Prelude.Map.{lookup-insert, lookup}
use polkadot_ethereum.Prelude.{Bool-cases, List, ◌≡◌, inr, some, ◌≤◌, true, inl, arith}
use polkadot_ethereum.LightClient.Import.Steps.{
  best-track_best, becomes_best, new_id, with_header, fresh_header,
}
use polkadot_ethereum.Frame.{Origin}
use polkadot_ethereum.LightClient.Import.Cases.{outcome, import_cases}
use polkadot_ethereum.LightClient.Import.{import_header, insert_header}
use polkadot_ethereum.Prelude.Eq.{nat_eq, pair_eq, list_eq}
use polkadot_ethereum.LightClient.Import.Finality.{Within-outcome}

-- No stored header has a higher total difficulty than the one recorded for the best block.
pub record IsBest (s : LightClient) : Type 0 where
  pub highest :
      (h : H256) (x : StoredHeader)
      → lookup h s.headers ≡ some x
      → x.total_difficulty ≤ s.best_block.1

module _ (c : Config) (header : Header) (s : LightClient) (sender : AccountId) (td : U256) where
  best_grows :
      c.verify_pow ≡ true
      → (td ≤ (outcome c header s sender td).1.best_block.1)
        × (s.best_block.1 ≤ (outcome c header s sender td).1.best_block.1)
  unfolding insert_header
  best_grows pow = elim (Bool-cases (becomes_best c sender header s td)) [
    | inl e ↦
        let moved =
          best-track_best c (new_id c sender header s) td (with_header c sender header s td) in
        rw e (ground (arith, moved, e, pow), ground (arith, moved, e, pow))
    | inr e ↦ rw e (ground (arith, e), omega arith)
  ]

  outcome-IsBest : c.verify_pow ≡ true → IsBest s → IsBest (outcome c header s sender td).1
  outcome-IsBest pow b = record {
    highest = λ h x e.
        let (y, ey, _, ty) = (Within-outcome c header s sender td).at h x e in
        let (new, old) = best_grows pow in
        ground (
          arith,
          new,
          old,
          ty,
          b.highest h y,
          lookup-insert h (Hashing.compute_hash c.codec header) (fresh_header sender header td)
              s.headers,
        );
  }

-- Where proofs of work are verified, an import, however it ends, keeps the recorded total difficulty
-- of the best block the highest of all stored headers, and never lowers it.
pub import_header-IsBest :
    (c : Config) (origin : Origin) (header : Header) (proof : List EthashProofData)
    (s : LightClient)
    → c.verify_pow ≡ true
    → IsBest s
    → IsBest (import_header c origin header proof s).1
      × (s.best_block.1 ≤ (import_header c origin header proof s).1.best_block.1)
import_header-IsBest c origin header proof s pow b = elim (import_cases c header s proof origin) [
  | inl r ↦ rw r.unchanged (b, omega arith)
  | inr r ↦ rw r.ends (
    outcome-IsBest c header s r.sender r.total pow b,
    (best_grows c header s r.sender r.total pow).1,
  )
]

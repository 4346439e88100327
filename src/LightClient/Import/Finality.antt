-- ===== src/LightClient/Import/Finality.antt =====
-- The invariant of the stored headers under an import, and where finality can move.
use polkadot_ethereum.Core.{H256, AccountId, U256, asset_eq}
use polkadot_ethereum.Ethereum.{Header}
use polkadot_ethereum.Ethereum.Hashing
use polkadot_ethereum.LightClient.{Config, LightClient, StoredHeader, EthashProofData}
use polkadot_ethereum.Frame.{Origin, Result, DispatchError}
use polkadot_ethereum.Prelude.{
  inr, List, ◌<◌, Bool-cases, ◌≡◌, inl, refl, some, arith, true, ap, subst, sym,
}
use polkadot_ethereum.LightClient.Within.{Within-refl, IsChained-Within, Within}
use polkadot_ethereum.LightClient.Ancestry.{Headers, IsChained}
use polkadot_ethereum.LightClient.Import.Chained.{IsUnforeseen, Within-track_best, IsChained-insert}
use polkadot_ethereum.Prelude.Map.{lookup-insert, lookup, insert}
use polkadot_ethereum.LightClient.Validate.Accepted.{Accepted}
use polkadot_ethereum.Prelude.Word.{u64_mod}
use polkadot_ethereum.LightClient.Import.{insert_header, import_header}
use polkadot_ethereum.LightClient.Import.Cases.{outcome, import_cases}
use polkadot_ethereum.LightClient.Import.Steps.{with_header, fresh_header, becomes_best, new_id}
use polkadot_ethereum.Prelude.Eq.{nat_eq, pair_eq, list_eq}

-- Numbers grow along the links, and are `u64`.
pub record IsLinked (m : Headers) : Type 0 where
  pub chained : IsChained m
  pub sized : (h : H256) (x : StoredHeader) → lookup h m ≡ some x → x.header.number < u64_mod

IsLinked-Within : {n m : Headers} → Within n m → IsLinked m → IsLinked n
IsLinked-Within w l = record {
  chained = IsChained-Within w l.chained;
  sized = λ h x e.
      let (y, ey, hy, _) = w.at h x e in
      omega (arith, l.sized h y ey, ap (λ (z : Header). z.number) hy);
}

module _ (c : Config) (header : Header) (s : LightClient) where
  abbrev hash : H256
  hash = Hashing.compute_hash c.codec header

  headers-with_header :
      (sender : AccountId) (td : U256)
      → (with_header c sender header s td).headers
        ≡ insert hash (fresh_header sender header td) s.headers
  unfolding insert_header
  headers-with_header sender td = refl

  pub Within-outcome :
      (sender : AccountId) (td : U256)
      → Within
          (outcome c header s sender td).1.headers
          (insert hash (fresh_header sender header td) s.headers)
  Within-outcome sender td =
      subst (Within (outcome c header s sender td).1.headers) (headers-with_header sender td)
        (elim (Bool-cases (becomes_best c sender header s td)) [
          | inl e ↦
              rw e (
                Within-track_best c (new_id c sender header s) td
                  (with_header c sender header s td))
          | inr e ↦ rw e (Within-refl (with_header c sender header s td).headers)
        ])

  -- A number that is newer than the finalized one has not wrapped.
  grows :
      (a : Accepted c header s)
      → c.verify_pow ≡ true
      → IsLinked s.headers
      → a.parent.header.number < header.number
  grows a pow l =
      omega (arith, a.is_newer, a.next_number pow, l.sized header.parent_hash a.parent a.has_parent)

  pub IsLinked-with_header :
      (sender : AccountId) (td : U256) (a : Accepted c header s)
      → c.verify_pow ≡ true
      → header.number < u64_mod
      → IsUnforeseen hash s.headers
      → IsLinked s.headers
      → IsLinked (insert hash (fresh_header sender header td) s.headers)
  IsLinked-with_header sender td a pow small u l = record {
    chained =
        IsChained-insert hash (fresh_header sender header td) a.parent s.headers l.chained u
          a.is_new a.has_parent (grows a pow l);
    sized = λ h x e.
        ground (arith, lookup-insert h hash (fresh_header sender header td) s.headers, l.sized h x);
  }

-- Where proofs of work are verified, an import of a header whose hash nobody has foreseen keeps the
-- numbers of the stored headers growing along the parent links and within 64 bits, however it ends.
pub import_header-IsLinked :
    (c : Config) (origin : Origin) (header : Header) (proof : List EthashProofData)
    (s : LightClient)
    → c.verify_pow ≡ true
    → header.number < u64_mod
    → IsUnforeseen (Hashing.compute_hash c.codec header) s.headers
    → IsLinked s.headers
    → IsLinked (import_header c origin header proof s).1.headers
import_header-IsLinked c origin header proof s pow small u l =
    elim (import_cases c header s proof origin) [
      | inl r ↦
          subst (λ (t : Result DispatchError (Unit {0}) × LightClient). IsLinked t.1.headers)
            (sym r.unchanged) l
      | inr r ↦
          subst (λ (t : Result DispatchError (Unit {0}) × LightClient). IsLinked t.1.headers)
            (sym r.ends)
            (IsLinked-Within (Within-outcome c header s r.sender r.total)
              (IsLinked-with_header c header s r.sender r.total r.accepted pow small u l))
    ]

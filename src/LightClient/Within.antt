-- ===== src/LightClient/Within.antt =====
-- Maps of headers that are part of another one, as after pruning or finalization.
use polkadot_ethereum.Core.{H256, asset_eq}
use polkadot_ethereum.LightClient.{StoredHeader}
use polkadot_ethereum.Prelude.{refl, some, inr, Bool-cases, ◌≡◌, inl, ◌==◌, ◌∙◌, arith, true, ap}
use polkadot_ethereum.Ethereum.{Header}
use polkadot_ethereum.LightClient.Ancestry.{IsChained, Headers}
use polkadot_ethereum.Prelude.Map.{lookup-insert, lookup-erase, lookup, erase, insert}
use polkadot_ethereum.Prelude.Eq.{nat_eq, pair_eq, list_eq}

-- Every header of the first map is in the second, with the same total difficulty; the mark
-- `finalized` may differ.
pub record Within (n m : Headers) : Type 0 where
  pub at :
      (h : H256) (x : StoredHeader)
      → lookup h n ≡ some x
      → (y : StoredHeader) × (lookup h m ≡ some y)
        × (y.header ≡ x.header)
        × (y.total_difficulty ≡ x.total_difficulty)

pub Within-refl : (m : Headers) → Within m m
Within-refl m = record { at = λ h x e. (x, e, refl, refl) }

pub Within-trans : {k n m : Headers} → Within k n → Within n m → Within k m
Within-trans p q = record {
  at = λ h x e.
      let (y, ey, hy, ty) = p.at h x e in
      let (z, ez, hz, tz) = q.at h y ey in (z, ez, hz ∙ hy, tz ∙ ty);
}

pub Within-erase : (k : H256) (m : Headers) → Within (erase k m) m
Within-erase k m = record { at = λ h x e. (x, ground (arith, lookup-erase h k m), refl, refl) }

pub Within-mark :
    (k : H256) (m : Headers) (old : StoredHeader)
    → lookup k m ≡ some old
    → Within (insert k (record old { finalized = true }) m) m
Within-mark k m old e = record {
  at = λ h x f.
      let law = lookup-insert h k (record old { finalized = true }) m in
      elim (Bool-cases (k == h)) [
        | inl same ↦ (old, ground (arith, law), ground (arith, law), ground (arith, law))
        | inr other ↦ (x, ground (arith, law), refl, refl)
      ];
}

pub IsChained-Within : {n m : Headers} → Within n m → IsChained m → IsChained n
IsChained-Within w c = record {
  linked = λ h child parent e f.
      let (y, ey, hy, _) = w.at h child e in
      let (z, ez, hz, _) = w.at child.header.parent_hash parent f in
      omega (
        arith,
        c.linked h y z ey (cc),
        ap (λ (x : Header). x.number) hy,
        ap (λ (x : Header). x.number) hz,
      );
}

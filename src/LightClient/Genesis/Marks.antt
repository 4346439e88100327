-- ===== src/LightClient/Genesis/Marks.antt =====
-- The loop that marks the finalized header and its ancestors has enough steps.
use polkadot_ethereum.Prelude.{
  ◌≡◌, inl, refl, Option-cases, ◌==◌, ◌∷◌, suc, some, ℕ, true, inr, Bool-cases, arith, zero, [],
  subst, ◌<◌, ◌≤◌, ap, length, sym,
}
use polkadot_ethereum.Prelude.Map.{lookup-insert, insert, lookup, lookup-insert_self}
use polkadot_ethereum.LightClient.Ancestry.{
  Headers, Ancestor, self, above, Ancestor-stored, IsChained,
}
use polkadot_ethereum.Core.{H256, asset_eq}
use polkadot_ethereum.LightClient.{StoredHeader}
use polkadot_ethereum.LightClient.Ancestry.Count.{
  count_to, count_to-le-length, count_to_pos, count_to_grows,
}
use polkadot_ethereum.LightClient.Genesis.{mark_ancestors}
use polkadot_ethereum.Prelude.Eq.{nat_eq, pair_eq, list_eq}
use polkadot_ethereum.LightClient.Within.{IsChained-Within, Within-mark}

-- Marking keeps the links, and the number of headers up to a number.
abbrev marked : H256 → StoredHeader → Headers → Headers
marked h old m = insert h (record old { finalized = true }) m

count_marked :
    (k : ℕ) (h : H256) (m : Headers) (old : StoredHeader)
    → lookup h m ≡ some old
    → count_to k (marked h old m) ≡ count_to k m
unfolding count_to lookup insert
count_marked k h [] old e = cc
count_marked k h ((j, st) ∷ m) old e = elim (Bool-cases (j == h)) [
  | inl same ↦
      let is_old : st ≡ old = ground (arith, same, e) in
      ground (arith, same, ap (λ (x : StoredHeader). x.header.number) is_old)
  | inr other ↦ ground (arith, other, count_marked k h m old (ground (arith, other, e)))
]

Ancestor-marked :
    {m : Headers} {a h : H256} (k : H256) (old : StoredHeader)
    → lookup k m ≡ some old
    → Ancestor m a h
    → Ancestor (marked k old m) a h
Ancestor-marked {m} {a} k old known (self {stored = x} e) = elim (Bool-cases (k == a)) [
  | inl same ↦
      self {stored = record old { finalized = true }}
        (ground (arith, same, lookup-insert a k (record old { finalized = true }) m))
  | inr other ↦
      self {stored = x}
        (ground (arith, other, e, lookup-insert a k (record old { finalized = true }) m))
]
Ancestor-marked {m} {a} {h} k old known (above {stored = x} e p) = elim (Bool-cases (k == h)) [
  | inl same ↦
      let is_old : x ≡ old = ground (arith, same, e, known) in
      above {stored = record old { finalized = true }}
        (ground (arith, same, lookup-insert h k (record old { finalized = true }) m))
        (subst (λ (y : StoredHeader). Ancestor (marked k old m) a y.header.parent_hash) is_old
          (Ancestor-marked k old known p))
  | inr other ↦
      above {stored = x}
        (ground (arith, other, e, lookup-insert h k (record old { finalized = true }) m))
        (Ancestor-marked k old known p)
]

abbrev pub IsMarked : H256 → Headers → Type 0
IsMarked a m = (x : StoredHeader) × (lookup a m ≡ some x) × (x.finalized ≡ true)

-- A mark stays.
mark-IsMarked :
    (n : ℕ) (h a : H256) (m : Headers) → IsMarked a m → IsMarked a (mark_ancestors n h m)
unfolding mark_ancestors
mark-IsMarked zero h a m i = i
mark-IsMarked (suc n) h a m (x, e, f) = elim (Option-cases (lookup h m)) [
  | inl none_left ↦ rw (mark_ancestors, none_left) (x, e, f)
  | inr (old, known) ↦
      rw (mark_ancestors, known)
        (mark-IsMarked n old.header.parent_hash a (marked h old m) (elim (Bool-cases (h == a)) [
          | inl same ↦ (
            record old { finalized = true },
            ground (arith, same, lookup-insert a h (record old { finalized = true }) m),
            refl,
          )
          | inr other ↦ (
            x,
            ground (arith, other, e, lookup-insert a h (record old { finalized = true }) m),
            f,
          )
        ]))
]

step_marks :
    (n : ℕ) (h : H256) (m : Headers) {y : StoredHeader}
    → lookup h m ≡ some y
    → mark_ancestors (suc n) h m ≡ mark_ancestors n y.header.parent_hash (marked h y m)
unfolding mark_ancestors
step_marks n h m e = rw (mark_ancestors, e)

marks_all :
    (n : ℕ) (m : Headers) (a h : H256)
    → IsChained m
    → Ancestor m a h
    → (y : StoredHeader) → lookup h m ≡ some y
    → count_to y.header.number m ≤ n
    → IsMarked a (mark_ancestors n h m)
marks_all zero m a h c p y e le = absurd (omega (arith, count_to_pos h m e, le))
marks_all (suc n) m a _ c (self {stored = x} ex) y e le =
    subst (IsMarked a) (sym (step_marks n a m e)) (
      mark-IsMarked n y.header.parent_hash a (marked a y m) (
        record y { finalized = true },
        lookup-insert_self a (record y { finalized = true }) m,
        refl,
      ))
marks_all (suc n) m a h c (above {stored = x} ex p) y e le =
    let same : x ≡ y = ground (arith, ex, e) in
    let q : Ancestor m a y.header.parent_hash =
      subst (λ (z : StoredHeader). Ancestor m a z.header.parent_hash) same p in
    let (parent, ep) = Ancestor-stored q in
    let below : parent.header.number < y.header.number = c.linked h y parent e ep in
    let kept : lookup y.header.parent_hash (marked h y m) ≡ some parent = ground (
      arith,
      e,
      ep,
      below,
      lookup-insert y.header.parent_hash h (record y { finalized = true }) m,
    ) in
    let fewer : count_to parent.header.number (marked h y m) ≤ n = omega (
      arith,
      count_marked parent.header.number h m y e,
      count_to_grows parent.header.number h m e below,
    ) in
    subst (IsMarked a) (sym (step_marks n h m e)) (
      marks_all n (marked h y m) a y.header.parent_hash (IsChained-Within (Within-mark h m y e) c)
        (Ancestor-marked h y e q) parent kept fewer)

-- Where numbers grow along the links, the loop that genesis runs from a stored header, with as many
-- steps as there are stored headers, marks every ancestor of that header as finalized, the header
-- included.
pub mark_ancestors-IsMarked :
    (m : Headers) (h a : H256)
    → IsChained m
    → Ancestor m a h
    → IsMarked a (mark_ancestors (length m) h m)
mark_ancestors-IsMarked m h a c p =
    let (y, e) = Ancestor-stored p in
    marks_all (length m) m a h c p y e (count_to-le-length y.header.number m)

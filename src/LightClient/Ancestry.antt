-- ===== src/LightClient/Ancestry.antt =====
-- The iterator of `ancestry` against the relation that it walks: a stored header, its stored parent,
-- and so on.
pub mod Count
use polkadot_ethereum.Core.{H256, asset_eq}
use polkadot_ethereum.Ethereum.{Header}
use polkadot_ethereum.LightClient.{LightClient, StoredHeader, ancestry_from, ancestry}
use polkadot_ethereum.Prelude.{
  suc, In, ◌<◌, zero, ℕ, ◌≡◌, some, ◌∙◌, inl, Option-cases, ◌≤◌, inr, ◌⊎◌, ◌∷◌, none, arith, [],
  subst, ap, ◌↔◌, length, sym,
}
use polkadot_ethereum.Prelude.Map.{Map, lookup}
use polkadot_ethereum.Prelude.Eq.{nat_eq, pair_eq, list_eq}
use polkadot_ethereum.LightClient.Ancestry.Count.{
  count_to-le-length, count_to, count_to_pos, count_to_grows,
}

abbrev pub Headers : Type 0
Headers = Map H256 StoredHeader

-- `a` is reached from `h` by parent links between stored headers, in no step or more.
pub data Ancestor (m : Headers) (a : H256) : H256 → Type 0 where
  self : {stored : StoredHeader} → lookup a m ≡ some stored → Ancestor m a a
  above :
      {h : H256} {stored : StoredHeader}
      → lookup h m ≡ some stored
      → Ancestor m a stored.header.parent_hash
      → Ancestor m a h

-- Along every link between stored headers the number grows.
pub record IsChained (m : Headers) : Type 0 where
  pub linked :
      (h : H256) (child parent : StoredHeader)
      → lookup h m ≡ some child
      → lookup child.header.parent_hash m ≡ some parent
      → parent.header.number < child.header.number

step_none : (n : ℕ) (h : H256) (m : Headers) → lookup h m ≡ none → ancestry_from (suc n) h m ≡ []
unfolding ancestry_from
step_none n h m e = rw (e, ancestry_from)

pub step_some :
    (n : ℕ) (h : H256) (m : Headers) {stored : StoredHeader}
    → lookup h m ≡ some stored
    → ancestry_from (suc n) h m ≡ (h, stored.header) ∷ ancestry_from n stored.header.parent_hash m
unfolding ancestry_from
step_some n h m e = rw (e, ancestry_from)

-- `header` is the one stored under `a`.
abbrev pub Stores : Headers → H256 → Header → Type 0
Stores m a header = (stored : StoredHeader) × (lookup a m ≡ some stored) × (stored.header ≡ header)

pub in_ancestry_sound :
    (n : ℕ) (h : H256) (m : Headers) (a : H256) (header : Header)
    → In (a, header) (ancestry_from n h m)
    → Ancestor m a h × Stores m a header
in_ancestry_sound zero h m a header i = unfold ancestry_from in elim i [ ]
in_ancestry_sound (suc n) h m a header i = elim (Option-cases (lookup h m)) [
  | inl e ↦ absurd (subst (In (a, header)) (step_none n h m e) i)
  | inr (stored, e) ↦ elim (subst (In (a, header)) (step_some n h m e) i) [
    | inl here ↦ (
      subst (λ x. Ancestor m x h) (ap (λ (p : H256 × Header). p.0) here) (self e),
      (stored, cc (ap (λ (p : H256 × Header). p.0) here), ap (λ (p : H256 × Header). p.1) here),
    )
    | inr later ↦
        let (up, known) = in_ancestry_sound n stored.header.parent_hash m a header later in
        (above e up, known)
  ]
]

pub Ancestor-stored :
    {m : Headers} {a h : H256}
    → Ancestor m a h
    → (stored : StoredHeader) × (lookup h m ≡ some stored)
Ancestor-stored (self {stored = st} e) = (st, e)
Ancestor-stored (above {stored = st} e p) = (st, e)

-- Of two ancestors of one header, one is an ancestor of the other.
pub Ancestor-linear :
    {m : Headers} {a b h : H256} → Ancestor m a h → Ancestor m b h → Ancestor m a b ⊎ Ancestor m b a
Ancestor-linear (self e) q = inr q
Ancestor-linear (above e p) (self f) = inl (above e p)
Ancestor-linear {m} {a} {b} (above {stored = x} e p) (above {stored = y} f q) =
    let same : y ≡ x = cc in
    Ancestor-linear p (subst (λ (s : StoredHeader). Ancestor m b s.header.parent_hash) same q)

-- Numbers do not grow towards the ancestors.
pub Ancestor-number :
    {m : Headers} {a h : H256} {x y : StoredHeader}
    → IsChained m
    → Ancestor m a h
    → lookup a m ≡ some x
    → lookup h m ≡ some y
    → x.header.number ≤ y.header.number
Ancestor-number {x = x} {y = y} c (self e) ex ey =
    let same : x ≡ y = cc in omega (arith, ap (λ (s : StoredHeader). s.header.number) same)
Ancestor-number {h = h} {y = y} c (above {stored = st} e p) ex ey =
    let same : st ≡ y = cc in
    let (parent, ep) = Ancestor-stored p in
    omega (
      arith,
      c.linked h st parent e ep,
      Ancestor-number c p ex ep,
      ap (λ (s : StoredHeader). s.header.number) same,
    )

in_ancestry_complete :
    {m : Headers} {a h : H256} {y : StoredHeader}
    → IsChained m
    → Ancestor m a h
    → (n : ℕ) → lookup h m ≡ some y
    → count_to y.header.number m ≤ n
    → (header : Header) → Stores m a header
    → In (a, header) (ancestry_from n h m)
in_ancestry_complete {m} {a} {y = y} c (self e) zero ey le header known =
    absurd (omega (arith, count_to_pos a m ey))
in_ancestry_complete {m} {a} {y = y} c (self e) (suc n) ey le header (st, est, eh) =
    subst (In (a, header)) (sym (step_some n a m est)) (inl (ap (λ (x : Header). (a, x)) eh))
in_ancestry_complete {m} {a} {h} {y} c (above {stored = st} e p) zero ey le header known =
    absurd (omega (arith, count_to_pos h m ey))
in_ancestry_complete {m} {a} {h} {y} c (above {stored = st} e p) (suc n) ey le header known =
    let same : st ≡ y = cc in
    let (parent, ep) = Ancestor-stored p in
    let below : parent.header.number < y.header.number =
      omega (arith, c.linked h st parent e ep, ap (λ (s : StoredHeader). s.header.number) same) in
    subst (In (a, header)) (sym (step_some n h m e)) (
      inr (
        in_ancestry_complete c p n ep
          (omega (arith, count_to_grows parent.header.number h m ey below)) header known))

-- Where numbers grow along the links, the iterator from a hash yields exactly the stored headers that
-- are reached from it by parent links: it leaves out none and never runs out of steps.
pub ancestry_iff :
    (h a : H256) (header : Header) (s : LightClient)
    → IsChained s.headers
    → In (a, header) (ancestry h s) ↔ (Ancestor s.headers a h × Stores s.headers a header)
unfolding ancestry
ancestry_iff h a header s c = (
  in_ancestry_sound (length s.headers) h s.headers a header,
  λ known.
      let (stored, e) = Ancestor-stored known.0 in
      in_ancestry_complete c known.0 (length s.headers) e
        (count_to-le-length stored.header.number s.headers) header known.1,
)

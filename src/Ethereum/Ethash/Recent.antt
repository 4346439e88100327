-- ===== src/Ethereum/Ethash/Recent.antt =====
-- The list of recently accessed epochs: how its operations count, and that sorting sorts.
use polkadot_ethereum.Prelude.{
  ℕ, List, [], ◌∷◌, some, if◌then◌else◌, ◌++◌, ◌+◌, ◌==◌, length, ◌≡◌, ◌≤◌, ◌<◌, inl, inr, refl,
  arith, All, Bool-cases, suc,
}
use polkadot_ethereum.Prelude.Eq.{nat_eq}
use polkadot_ethereum.Ethereum.Ethash.Cache.{insert_sorted, sort, touch}

-- How many entries are of an epoch.
unfoldable pub count : ℕ → List (ℕ × ℕ) → ℕ
count e [] = 0
count e (p ∷ ps) = (if p.1 == e then 1 else 0) + count e ps

-- From the least recent timestamp to the most recent one.
abbrev pub IsSorted : List (ℕ × ℕ) → Type 0
IsSorted [] = Unit
IsSorted (p ∷ ps) = All (λ (q : ℕ × ℕ). p.0 ≤ q.0) ps × IsSorted ps

pub count-append :
    (e : ℕ) (ps : List (ℕ × ℕ)) (q : ℕ × ℕ)
    → count e (ps ++ q ∷ []) ≡ (if q.1 == e then 1 else 0) + count e ps
unfolding count
count-append e [] q = ground arith
count-append e (p ∷ ps) q = ground (arith, count-append e ps q)

count-insert_sorted :
    (e : ℕ) (p : ℕ × ℕ) (ps : List (ℕ × ℕ))
    → count e (insert_sorted p ps) ≡ (if p.1 == e then 1 else 0) + count e ps
unfolding count insert_sorted
count-insert_sorted e p [] = ground arith
count-insert_sorted e p (q ∷ qs) = ground (arith, count-insert_sorted e p qs)

pub count-sort : (e : ℕ) (ps : List (ℕ × ℕ)) → count e (sort ps) ≡ count e ps
unfolding count sort
count-sort e [] = refl
count-sort e (p ∷ ps) = ground (arith, count-insert_sorted e p (sort ps), count-sort e ps)

length-insert_sorted :
    (p : ℕ × ℕ) (ps : List (ℕ × ℕ)) → length (insert_sorted p ps) ≡ suc (length ps)
unfolding insert_sorted
length-insert_sorted p [] = refl
length-insert_sorted p (q ∷ qs) = ground (arith, length-insert_sorted p qs)

pub length-sort : (ps : List (ℕ × ℕ)) → length (sort ps) ≡ length ps
unfolding sort
length-sort [] = refl
length-sort (p ∷ ps) = omega (arith, length-insert_sorted p (sort ps), length-sort ps)

All-later :
    (a b : ℕ) (ps : List (ℕ × ℕ))
    → a ≤ b
    → All (λ (q : ℕ × ℕ). b ≤ q.0) ps
    → All (λ (q : ℕ × ℕ). a ≤ q.0) ps
All-later a b [] le h = tt
All-later a b (p ∷ ps) le h = (omega (arith, le, h.0), All-later a b ps le h.1)

All-insert_sorted :
    (a : ℕ) (p : ℕ × ℕ) (ps : List (ℕ × ℕ))
    → a ≤ p.0
    → All (λ (q : ℕ × ℕ). a ≤ q.0) ps
    → All (λ (q : ℕ × ℕ). a ≤ q.0) (insert_sorted p ps)
unfolding insert_sorted
All-insert_sorted a p [] le h = (le, tt)
All-insert_sorted a p (q ∷ qs) le h = ground (arith, le, h, All-insert_sorted a p qs le h.1)

insert_sorted-IsSorted :
    (p : ℕ × ℕ) (ps : List (ℕ × ℕ)) → IsSorted ps → IsSorted (insert_sorted p ps)
unfolding insert_sorted
insert_sorted-IsSorted p [] s = (tt, tt)
insert_sorted-IsSorted p (q ∷ qs) s =
    ground
      (arith, s, All-later p.0 q.0 qs, All-insert_sorted q.0 p qs, insert_sorted-IsSorted p qs s.1)

pub sort-IsSorted : (ps : List (ℕ × ℕ)) → IsSorted (sort ps)
unfolding sort
sort-IsSorted [] = tt
sort-IsSorted (p ∷ ps) = insert_sorted-IsSorted p (sort ps) (sort-IsSorted ps)

pub touch_lem :
    (epoch timestamp : ℕ) (ps : List (ℕ × ℕ))
    → 0 < count epoch ps
    → (qs : List (ℕ × ℕ)) × (touch epoch timestamp ps ≡ some qs)
      × (length qs ≡ length ps)
      × ((e : ℕ) → count e qs ≡ count e ps)
unfolding touch count
touch_lem epoch timestamp [] lt = absurd (omega (arith, lt))
touch_lem epoch timestamp (p ∷ ps) lt = elim (Bool-cases (p.1 == epoch)) [
  | inl same ↦ ((timestamp, p.1) ∷ ps, ground (arith, same), refl, λ e. refl)
  | inr other ↦
      let (qs, found, size, counts) = touch_lem epoch timestamp ps (ground (arith, lt, other)) in
      (p ∷ qs, ground (arith, other, found), omega (arith, size), λ e. omega (arith, counts e))
]

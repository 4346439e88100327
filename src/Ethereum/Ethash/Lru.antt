-- ===== src/Ethereum/Ethash/Lru.antt =====
-- What a `get` of the cache of epochs does: it answers as the generator does, never panics, and
-- forgets the epoch that was asked for least recently.
use polkadot_ethereum.Prelude.{
  ℕ, List, [], ◌∷◌, none, some, if◌then◌else◌, ◌++◌, ◌==◌, ltb, length, ◌≡◌, ◌≤◌, ◌<◌, inl, inr,
  refl, arith, All, Bool-cases, length-append, ap, subst, ◌⊎◌,
}
use polkadot_ethereum.Prelude.Eq.{nat_eq}
use polkadot_ethereum.Prelude.Map.{lookup, contains_key, lookup-insert, lookup-erase, insert, erase}
use polkadot_ethereum.Ethereum.Ethash.Cache.{
  EthashCache, sort, replace_first, make_room, access, get,
}
use polkadot_ethereum.Ethereum.Ethash.Recent.{
  count, IsSorted, count-append, count-sort, length-sort, sort-IsSorted, touch_lem,
}

-- At most `max_capacity` caches, one for each epoch that is listed, as the generator makes them.
pub record IsValid (c : EthashCache) : Type 0 where
  pub positive : 0 < c.max_capacity
  pub bounded : length c.recently_accessed_epochs ≤ c.max_capacity
  pub once : (e : ℕ) → count e c.recently_accessed_epochs ≤ 1
  pub agrees :
      (e : ℕ)
      → lookup e c.caches_by_epoch
        ≡ (if ltb 0 (count e c.recently_accessed_epochs) then some (c.cache_gen_fn e) else none)

-- The epoch is the first that is listed, and no timestamp is below its own.
pub record IsOldest (e : ℕ) (recent : List (ℕ × ℕ)) : Type 0 where
  pub timestamp : ℕ
  pub others : List (ℕ × ℕ)
  pub is_first : recent ≡ (timestamp, e) ∷ others
  pub is_least : All (λ (q : ℕ × ℕ). timestamp ≤ q.0) others

-- What an access does.
pub record Accesses (epoch : ℕ) (c d : EthashCache) : Type 0 where
  pub is_valid : IsValid d
  pub same_capacity : d.max_capacity ≡ c.max_capacity
  pub same_generator : d.cache_gen_fn ≡ c.cache_gen_fn
  pub present : 0 < count epoch d.recently_accessed_epochs
  -- an epoch is forgotten only to make room for another one, and only the oldest
  pub forgets :
      (e : ℕ)
      → 0 < count e c.recently_accessed_epochs
      → count e d.recently_accessed_epochs ≡ 0
      → (length c.recently_accessed_epochs ≡ c.max_capacity)
        × (count epoch c.recently_accessed_epochs ≡ 0)
        × IsOldest e c.recently_accessed_epochs

Pairs-cases :
    (ps : List (ℕ × ℕ)) → (ps ≡ []) ⊎ ((q : ℕ × ℕ) × ((qs : List (ℕ × ℕ)) × (ps ≡ q ∷ qs)))
Pairs-cases [] = inl refl
Pairs-cases (q ∷ qs) = inr (q, (qs, refl))

module _ (epoch timestamp : ℕ) (c : EthashCache) (v : IsValid c) where
  hit :
      0 < count epoch c.recently_accessed_epochs
      → (d : EthashCache) × (access epoch timestamp c ≡ some d) × Accesses epoch c d
  unfolding access contains_key
  hit lt =
      let (qs, found, size, counts) = touch_lem epoch timestamp c.recently_accessed_epochs lt in
      (
        record c { recently_accessed_epochs = qs },
        ground (arith, v.agrees epoch, found, lt),
        record {
          is_valid = record {
            positive = v.positive;
            bounded = omega (arith, size, v.bounded);
            once = λ e. omega (arith, counts e, v.once e);
            agrees = λ e. ground (arith, counts e, v.agrees e);
          };
          same_capacity = refl;
          same_generator = refl;
          present = omega (arith, counts epoch, lt);
          forgets = λ e p z. absurd (omega (arith, counts e, p, z));
        },
      )

  grow :
      count epoch c.recently_accessed_epochs ≡ 0
      → length c.recently_accessed_epochs < c.max_capacity
      → (d : EthashCache) × (access epoch timestamp c ≡ some d) × Accesses epoch c d
  unfolding access contains_key make_room
  grow new room =
      let recent = c.recently_accessed_epochs in
      let size = length-append {0} recent ((timestamp, epoch) ∷ []) in
      (
        record c {
          recently_accessed_epochs = recent ++ (timestamp, epoch) ∷ [];
          caches_by_epoch = insert epoch (c.cache_gen_fn epoch) c.caches_by_epoch;
        },
        ground (arith, v.agrees epoch, new, room),
        record {
          is_valid = record {
            positive = v.positive;
            bounded = omega (arith, size, room);
            once = λ e. ground (arith, count-append e recent (timestamp, epoch), v.once e, new);
            agrees = λ e. ground (
              arith,
              count-append e recent (timestamp, epoch),
              v.agrees e,
              new,
              lookup-insert e epoch (c.cache_gen_fn epoch) c.caches_by_epoch,
            );
          };
          same_capacity = refl;
          same_generator = refl;
          present = ground (arith, count-append epoch recent (timestamp, epoch));
          forgets =
              λ e p z. absurd (ground (arith, count-append e recent (timestamp, epoch), p, z));
        },
      )

  evict :
      IsSorted c.recently_accessed_epochs
      → count epoch c.recently_accessed_epochs ≡ 0
      → length c.recently_accessed_epochs ≡ c.max_capacity
      → (d : EthashCache) × (access epoch timestamp c ≡ some d) × Accesses epoch c d
  unfolding access contains_key make_room replace_first
  evict s new full = elim (Pairs-cases c.recently_accessed_epochs) [
    | inl empty ↦ absurd (omega (arith, ap length empty, full, v.positive))
    | inr (p, (ps, is)) ↦
        let split = λ (e : ℕ). ap (count e) is in
        (
          record c {
            recently_accessed_epochs = (timestamp, epoch) ∷ ps;
            caches_by_epoch = insert epoch (c.cache_gen_fn epoch) (erase p.1 c.caches_by_epoch);
          },
          ground (arith, v.agrees epoch, new, full, is),
          record {
            is_valid = record {
              positive = v.positive;
              bounded = omega (arith, ap length is, full);
              once = λ e. unfold count in ground (arith, split e, v.once e, new);
              agrees = λ e.
                  unfold count in
                  ground (
                    arith,
                    split e,
                    v.agrees e,
                    v.once e,
                    new,
                    lookup-insert e epoch (c.cache_gen_fn epoch) (erase p.1 c.caches_by_epoch),
                    lookup-erase e p.1 c.caches_by_epoch,
                  );
            };
            same_capacity = refl;
            same_generator = refl;
            present = unfold count in ground arith;
            forgets = λ e q z. (
              full,
              new,
              record {
                timestamp = p.0;
                others = ps;
                is_first = unfold count in ground (arith, is, split e, q, z);
                is_least = (subst IsSorted is s).0;
              },
            );
          },
        )
  ]

access_cases :
    (epoch timestamp : ℕ) (c : EthashCache)
    → IsValid c
    → IsSorted c.recently_accessed_epochs
    → (d : EthashCache) × (access epoch timestamp c ≡ some d) × Accesses epoch c d
access_cases epoch timestamp c v s =
    elim (Bool-cases (ltb 0 (count epoch c.recently_accessed_epochs))) [
      | inl listed ↦ hit epoch timestamp c v (ground (arith, listed))
      | inr new ↦ elim (Bool-cases (length c.recently_accessed_epochs == c.max_capacity)) [
        | inl full ↦ evict epoch timestamp c v s (ground (arith, new)) (ground (arith, full))
        | inr room ↦
            grow epoch timestamp c v (ground (arith, new)) (ground (arith, room, v.bounded))
      ]
    ]

-- In a cache in order, asking for an epoch never panics and is answered as the generator answers,
-- whatever is asked for. The cache stays in order, with as many entries as it may have at most, and
-- the epoch is then listed. An epoch is forgotten only where a new one is asked of a full cache, and
-- it is the first listed, with the least timestamp.
pub get_answers :
    (epoch timestamp : ℕ) (c : EthashCache)
    → IsValid c
    → IsSorted c.recently_accessed_epochs
    → (d : EthashCache) × (get epoch timestamp c ≡ some (c.cache_gen_fn epoch, d))
      × Accesses epoch c d
      × IsSorted d.recently_accessed_epochs
unfolding get
get_answers epoch timestamp c v s =
    let (d, done, a) = access_cases epoch timestamp c v s in
    let counts = λ (e : ℕ). count-sort e d.recently_accessed_epochs in
    (
      record d { recently_accessed_epochs = sort d.recently_accessed_epochs },
      ground (arith, done, a.is_valid.agrees epoch, a.present, a.same_generator),
      record {
        is_valid = record {
          positive = a.is_valid.positive;
          bounded = omega (arith, length-sort d.recently_accessed_epochs, a.is_valid.bounded);
          once = λ e. omega (arith, counts e, a.is_valid.once e);
          agrees = λ e. ground (arith, counts e, a.is_valid.agrees e);
        };
        same_capacity = a.same_capacity;
        same_generator = a.same_generator;
        present = omega (arith, counts epoch, a.present);
        forgets = λ e p z. a.forgets e p (omega (arith, counts e, z));
      },
      sort-IsSorted d.recently_accessed_epochs,
    )

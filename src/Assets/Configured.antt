-- ===== src/Assets/Configured.antt =====
-- What the genesis configuration leaves.
use polkadot_ethereum.Frame.{ok, Result, DispatchError, err, DispatchError}
use polkadot_ethereum.Prelude.{
  List, none, ◌∷◌, ◌≡◌, false, arith, ◌<◌, ◌+◌, [], dec_lt, refl, ◌≤◌, subst, sym,
}
use polkadot_ethereum.Core.{AccountId, U256, AssetId, asset_eq, asset_beq_iff}
use polkadot_ethereum.Assets.{Assets, total_issuance, set_balance, set_issuance}
use polkadot_ethereum.Prelude.Map.{lookup-insert, insert, lookup}
use polkadot_ethereum.Assets.Sum.{sum-insert, sum_of}
use polkadot_ethereum.Assets.Sound.{IsSound}
use polkadot_ethereum.Prelude.Eq.{pair_beq, nat_eq, pair_eq, list_eq}
use polkadot_ethereum.Assets.Calls.{build}
use polkadot_ethereum.Prelude.Word.{u256_mod}

abbrev Entry : Type 0
Entry = AssetId × AccountId × U256

-- No other entry is for this account and asset.
abbrev pub Unrepeated : AssetId → AccountId → List Entry → Type 0
Unrepeated a who [] = Unit
Unrepeated a who ((b, other, _) ∷ rest) =
    (pair_beq (a, who) (b, other) ≡ false) × Unrepeated a who rest

abbrev pub Distinct : List Entry → Type 0
Distinct [] = Unit
Distinct ((a, who, _) ∷ rest) = Unrepeated a who rest × Distinct rest

-- No entry has a balance yet.
abbrev Unset : List Entry → Assets → Type 0
Unset [] s = Unit
Unset ((a, who, _) ∷ rest) s = (lookup (a, who) s.balances ≡ none) × Unset rest s

Unset-set_balance :
    (a : AssetId) (who : AccountId) (v : U256) (entries : List Entry) (s t : Assets)
    → t.balances ≡ insert (a, who) v s.balances
    → Unrepeated a who entries
    → Unset entries s
    → Unset entries t
Unset-set_balance a who v [] s t e _ _ = tt
Unset-set_balance a who v ((b, other, w) ∷ rest) s t e (ne, more) (free, unset) = (
  ground (arith, e, ne, free, lookup-insert (b, other) (a, who) v s.balances),
  Unset-set_balance a who v rest s t e more unset,
)

step-IsSound :
    (a : AssetId) (who : AccountId) (v : U256) (s : Assets)
    → IsSound s
    → lookup (a, who) s.balances ≡ none
    → total_issuance a s + v < u256_mod
    → IsSound (set_balance a who v (set_issuance a (total_issuance a s + v) s))
unfolding total_issuance
step-IsSound a who v s h free fits = record {
  backed = λ b. ground (
    arith,
    free,
    h.backed a,
    h.backed b,
    asset_beq_iff a b,
    sum-insert b a who v s.balances,
    lookup-insert b a (total_issuance a s + v) s.total_issuances,
  );
  fits = λ b.
      ground (arith, fits, h.fits b, lookup-insert b a (total_issuance a s + v) s.total_issuances);
}

abbrev after : AssetId → AccountId → U256 → Assets → Assets
after a who v s = set_balance a who v (set_issuance a (total_issuance a s + v) s)

build_step :
    (a : AssetId) (who : AccountId) (v : U256) (rest : List Entry) (s : Assets)
    → total_issuance a s + v < u256_mod
    → build ((a, who, v) ∷ rest) s ≡ build rest (after a who v s)
unfolding build
build_step a who v rest s fits = ground (arith, fits)

build_stops :
    (a : AssetId) (who : AccountId) (v : U256) (rest : List Entry) (s : Assets)
    → u256_mod ≤ total_issuance a s + v
    → (build ((a, who, v) ∷ rest) s).0 ≡ err DispatchError.panic
unfolding build
build_stops a who v rest s big = ground (arith, big)

build_all :
    (entries : List Entry) (s : Assets)
    → Distinct entries
    → Unset entries s
    → IsSound s
    → (build entries s).0 ≡ ok tt
    → IsSound (build entries s).1
build_all [] s d u h done = unfold build in h
build_all ((a, who, v) ∷ rest) s (new, d) (free, u) h done =
    elim (dec_lt (total_issuance a s + v) u256_mod) [
      | no big ↦ absurd (cc (done, build_stops a who v rest s (omega arith)))
      | yes fits ↦
          let e = build_step a who v rest s fits in
          subst (λ (r : Result DispatchError (Unit {0}) × Assets). IsSound r.1) (sym e)
            (build_all rest (after a who v s) d
              (Unset-set_balance a who v rest s (after a who v s) refl new u)
              (step-IsSound a who v s h free fits) (cc (done, e)))
    ]

abbrev pub nothing : Assets
nothing = record { total_issuances = []; balances = [] }

pub nothing-IsSound : IsSound nothing
unfolding total_issuance lookup sum_of
nothing-IsSound = record { backed = λ a. refl; fits = λ a. omega arith }

nothing-Unset : (entries : List Entry) → Unset entries nothing
unfolding lookup
nothing-Unset [] = tt
nothing-Unset (e ∷ rest) = (refl, nothing-Unset rest)

-- A genesis configuration in which no account is listed twice for one asset, and whose sums do not
-- overflow, leaves the total issuance of every asset equal to the sum of its balances.
pub build-IsSound :
    (entries : List (AssetId × AccountId × U256))
    → Distinct entries
    → (build entries nothing).0 ≡ ok tt
    → IsSound (build entries nothing).1
build-IsSound entries d done =
    build_all entries nothing d (nothing-Unset entries) nothing-IsSound done

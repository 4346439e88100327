-- ===== src/Nft/Genesis.antt =====
-- The genesis configuration of the NFT pallet: every token of the list is minted, and a token that
-- cannot be minted aborts.
use polkadot_ethereum.Frame.{◌>>=◌, DispatchError, Dispatch, pure, map_err, Result, err}
use polkadot_ethereum.Nft.{Nft, mint}
use polkadot_ethereum.Prelude.{ℕ, inl, ◌∷◌, inr, ◌<◌, refl, List, [], arith, ◌≡◌, subst, sym}
use polkadot_ethereum.Frame.Outcome.{Result-cases}
use polkadot_ethereum.Core.{AccountId, Bytes, Erc721TokenData}
use polkadot_ethereum.Nft.Owners.{IsIndexed, operations-IsIndexed}
use polkadot_ethereum.Prelude.Map.{lookup}

pub build : ℕ → List (AccountId × Bytes × Erc721TokenData) → Dispatch Nft
build bits [] = pure tt
build bits ((owner, metadata, properties) ∷ rest) = do
  _ ← map_err DispatchError.panic (mint bits owner metadata properties)
  build bits rest

abbrev pub nothing : Nft
nothing = record { next_token_id = 0; tokens = []; tokens_by_owner = [] }

nothing-IsIndexed : (bits : ℕ) → 0 < bits → IsIndexed bits nothing
unfolding lookup
nothing-IsIndexed bits pos = record {
  owned = λ a t. (λ h. cc, λ h. cc (h.1));
  free = λ t le. refl;
  bounded = pos;
}

build_from :
    (bits : ℕ) (tokens : List (AccountId × Bytes × Erc721TokenData)) (s : Nft)
    → IsIndexed bits s
    → IsIndexed bits (build bits tokens s).1
unfolding build
build_from bits [] s i = i
build_from bits ((owner, metadata, properties) ∷ rest) s i =
    let (kept, _, _) = operations-IsIndexed bits owner owner 0 metadata properties in
    let after = kept.at s i in
    elim (Result-cases (mint bits owner metadata properties s).0) [
      | inl (t, e) ↦
          let next : build bits ((owner, metadata, properties) ∷ rest) s
              ≡ build bits rest (mint bits owner metadata properties s).1 =
            ground (arith, e) in
          subst (λ (r : Result DispatchError (Unit {0}) × Nft). IsIndexed bits r.1) (sym next)
            (build_from bits rest (mint bits owner metadata properties s).1 after)
      | inr (x, e) ↦
          let stops : build bits ((owner, metadata, properties) ∷ rest) s
              ≡ (err DispatchError.panic, (mint bits owner metadata properties s).1) =
            ground (arith, e) in
          subst (λ (r : Result DispatchError (Unit {0}) × Nft). IsIndexed bits r.1) (sym stops)
            after
    ]

-- Whatever tokens the genesis configuration lists, and whether or not they can all be minted, the
-- index of owners is in step with the tokens afterwards, and the ids from the next one on are free.
pub build_tokens-IsIndexed :
    (bits : ℕ) (tokens : List (AccountId × Bytes × Erc721TokenData))
    → 0 < bits
    → IsIndexed bits (build bits tokens nothing).1
build_tokens-IsIndexed bits tokens pos = build_from bits tokens nothing (nothing-IsIndexed bits pos)

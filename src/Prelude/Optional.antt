-- ===== src/Prelude/Optional.antt =====
-- Chains of `Option` results, for `do` blocks, and the sequencing of a list of them.
use polkadot_ethereum.Prelude.{◌∷◌, some, Option, List, none, []}

infixl 5 ◌>>=◌
abbrev pub ◌>>=◌ {ℓ κ} : {A : Type ℓ} {B : Type κ} → Option A → (A → Option B) → Option B
none >>= f = none
some a >>= f = f a

-- `iter().map(f).collect::<Result<_, _>>()`
unfoldable pub traverse {ℓ κ} :
    {A : Type ℓ} {B : Type κ} → (A → Option B) → List A → Option (List B)
traverse f [] = some []
traverse f (x ∷ xs) = do y ← f x; ys ← traverse f xs; some (y ∷ ys)

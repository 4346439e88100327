-- ===== src/Channels/Numbered.antt =====
-- Messages numbered one by one, as an outbound channel sends them.
use polkadot_ethereum.Prelude.{
  ◌∙◌, ℕ, ◌+◌, ◌++◌, All, ◌≡◌, ◌∷◌, refl, List, arith, [], ap, length, sym,
}

module _ {M : Type 0} (nonce_of : M → ℕ) where
  -- From the oldest to the latest, the messages bear the numbers from `start + 1` to `last`.
  abbrev pub Numbered : ℕ → List M → ℕ → Type 0
  Numbered start [] last = start ≡ last
  Numbered start (m ∷ ms) last = (nonce_of m ≡ start + 1) × Numbered (start + 1) ms last

  pub Numbered-snoc :
      (start : ℕ) (ms : List M) (last : ℕ) (m : M)
      → Numbered start ms last
      → nonce_of m ≡ last + 1
      → Numbered start (ms ++ m ∷ []) (last + 1)
  Numbered-snoc start [] last m e n = (n ∙ ap (λ k. k + 1) (sym e), ap (λ k. k + 1) e)
  Numbered-snoc start (x ∷ ms) last m (e, rest) n = (e, Numbered-snoc (start + 1) ms last m rest n)

  pub Numbered-length :
      (start : ℕ) (ms : List M) (last : ℕ) → Numbered start ms last → last ≡ start + length ms
  Numbered-length start [] last e = omega (arith, e)
  Numbered-length start (x ∷ ms) last (e, rest) =
      omega (arith, Numbered-length (start + 1) ms last rest)

-- The batches that have been committed, one after the other.
abbrev pub flatten : {K M : Type 0} → List (K × List M) → List M
flatten [] = []
flatten ((_, ms) ∷ rest) = ms ++ flatten rest

module _ {M : Type 0} where
  append_nil : (ms : List M) → ms ++ [] ≡ ms
  append_nil [] = refl
  append_nil (m ∷ ms) = ap (λ xs. m ∷ xs) (append_nil ms)

  pub append_assoc : (xs ys zs : List M) → (xs ++ ys) ++ zs ≡ xs ++ (ys ++ zs)
  append_assoc [] ys zs = refl
  append_assoc (x ∷ xs) ys zs = ap (λ l. x ∷ l) (append_assoc xs ys zs)

  pub flatten-snoc :
      {K : Type 0} (batches : List (K × List M)) (key : K) (ms : List M)
      → flatten (batches ++ (key, ms) ∷ []) ++ [] ≡ flatten batches ++ ms
  flatten-snoc [] key ms = append_nil (ms ++ []) ∙ append_nil ms
  flatten-snoc ((k, xs) ∷ batches) key ms =
      append_assoc xs (flatten (batches ++ (key, ms) ∷ [])) []
      ∙ ap (λ l. xs ++ l) (flatten-snoc batches key ms)
      ∙ sym (append_assoc xs (flatten batches) ms)

-- A property of all elements, through one more at the end.
pub All-snoc :
    {M : Type 0} (P : M → Type 0) (ms : List M) (m : M) → All P ms → P m → All P (ms ++ m ∷ [])
All-snoc P [] m all p = (p, tt)
All-snoc P (x ∷ ms) m (q, all) p = (q, All-snoc P ms m all p)

-- ===== src/Prelude/Int.antt =====
-- Signed integers over the native numbers, as far as the difficulty adjustment needs them.
-- `negsuc n` is -(n + 1).
use polkadot_ethereum.Prelude.{ℕ, ◌-◌, if◌then◌else◌, leb}

pub data ℤ : Type 0 where
  pos : ℕ → ℤ
  negsuc : ℕ → ℤ

-- a - b, as an integer
abbrev pub sub_ℕ : ℕ → ℕ → ℤ
sub_ℕ a b = if leb b a then pos (a - b) else negsuc (b - a - 1)

-- `a.max(-(m + 1))`
abbrev pub at_least_negsuc : ℕ → ℤ → ℤ
at_least_negsuc m (pos n) = pos n
at_least_negsuc m (negsuc n) = if leb n m then negsuc n else negsuc m

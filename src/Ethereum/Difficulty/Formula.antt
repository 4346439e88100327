-- ===== src/Ethereum/Difficulty/Formula.antt =====
-- The difficulty adjustment against the formula of EIP-100 and the later bomb delays.
use native.Mathlib.Nat.{pow-le-pow_right}
use polkadot_ethereum.Core.{U256}
use polkadot_ethereum.Ethereum.{Header}
use polkadot_ethereum.Prelude.{
  arith, Bool, false, ◌-◌, ◌≡◌, ◌<◌, ◌+◌, ℕ, ◌^◌, ◌*◌, true, ◌≤◌, ◌/◌, if◌then◌else◌, leb, min,
  Bool-cases, suc, inl, inr, some, ◌%◌, max,
}
use polkadot_ethereum.Frame.{ok}
use polkadot_ethereum.Ethereum.Difficulty.{
  adjusted, with_bomb, sigma2, DifficultyConfig, BombDelay, calc_difficulty, minimum_difficulty,
  block_time_div_9, bomb_delay, period_count, before_byzantium,
}
use polkadot_ethereum.Prelude.Int.{pos, negsuc}
use polkadot_ethereum.Prelude.Word.{u64_mod}
use polkadot_ethereum.Ethereum.Hashing.{has_ommers}
use polkadot_ethereum.Frame.Outcome.{bind-eq-ok, or_err}

abbrev pub ommer_bonus : Bool → ℕ
ommer_bonus ommers = if ommers then 2 else 1

bonus_le : (o : Bool) (div : ℕ) → ommer_bonus o - div ≤ 2
bonus_le true div = omega arith
bonus_le false div = omega arith

-- parent_diff + parent_diff / 2048 * max(y - gap / 9, -99), written without negative numbers
abbrev pub target : U256 → Bool → ℕ → U256
target d ommers div =
    if leb div (ommer_bonus ommers)
    then d + d / 2048 * (ommer_bonus ommers - div)
    else d - d / 2048 * min (div - ommer_bonus ommers) 99

abbrev pub bomb : ℕ → ℕ
bomb periods = if leb 2 periods then 2 ^ (periods - 2) else 0

fall-le : (d k : ℕ) → k ≤ 99 → d / 2048 * k ≤ d
fall-le d k h = grind arith

adjusted_rise : (d n : ℕ) → d < 2 ^ 254 → n ≤ 2 → adjusted d (pos n) ≡ ok (d + d / 2048 * n)
unfolding adjusted
adjusted_rise d n h k = let small : d / 2048 * n ≤ d = fall-le d n (omega arith) in ground arith

adjusted_fall : (d n : ℕ) → d < 2 ^ 254 → n ≤ 98 → adjusted d (negsuc n) ≡ ok (d - d / 2048 * suc n)
unfolding adjusted
adjusted_fall d n h k =
    let small : d / 2048 * suc n ≤ d = fall-le d (suc n) (omega arith) in ground arith

sigma2_rise :
    (o : Bool) (div : ℕ) → leb div (ommer_bonus o) ≡ true → sigma2 o div ≡ pos (ommer_bonus o - div)
unfolding sigma2
sigma2_rise true div h = rw h
sigma2_rise false div h = rw h

sigma2_fall :
    (o : Bool) (div : ℕ)
    → leb div (ommer_bonus o) ≡ false
    → sigma2 o div ≡ negsuc (min (div - ommer_bonus o) 99 - 1)
unfolding sigma2
sigma2_fall true div h = ground arith
sigma2_fall false div h = ground arith

fall_count :
    (o : Bool) (div : ℕ)
    → leb div (ommer_bonus o) ≡ false
    → suc (min (div - ommer_bonus o) 99 - 1) ≡ min (div - ommer_bonus o) 99
fall_count true div h = ground arith
fall_count false div h = ground arith

adjusted-eq-target :
    (d : U256) (o : Bool) (div : ℕ) → d < 2 ^ 254 → adjusted d (sigma2 o div) ≡ ok (target d o div)
adjusted-eq-target d o div h = elim (Bool-cases (leb div (ommer_bonus o))) [
  | inl le ↦
      rw (sigma2_rise o div le, le) (adjusted_rise d (ommer_bonus o - div) h (bonus_le o div))
  | inr gt ↦
      rw (sigma2_fall o div gt, gt)
        (rw (fall_count o div gt) at
          (adjusted_fall d (min (div - ommer_bonus o) 99 - 1) h (omega arith)))
]

power-lt : (p : ℕ) → p ≤ 200 → 2 ^ (p - 2) ≤ 2 ^ 198
power-lt p h = pow-le-pow_right {n = 2} (omega arith) {i = p - 2} {j = 198} (omega arith)

with_bomb-eq : (d : U256) (p : ℕ) → d < 2 ^ 255 → p ≤ 200 → with_bomb d p ≡ ok (d + bomb p)
unfolding with_bomb
with_bomb-eq d p h k = ground (arith, power-lt p k)

target-le : (d : U256) (o : Bool) (div : ℕ) → target d o div ≤ 2 * d
target-le d o div = ground (arith, fall-le d (ommer_bonus o - div), bonus_le o div)

pub calc_difficulty-eq-formula :
    (config : DifficultyConfig) (time : ℕ) (parent : Header) (delay : BombDelay)
    → bomb_delay config ((parent.number + 1) % u64_mod) ≡ some delay
    → parent.timestamp ≤ time
    → time < u64_mod
    → parent.difficulty < 2 ^ 254
    → period_count parent.number delay ≤ 200
    → calc_difficulty config time parent
      ≡ ok (
          max
            (target parent.difficulty (has_ommers parent) ((time - parent.timestamp) / 9))
            minimum_difficulty
          + bomb (period_count parent.number delay))
unfolding calc_difficulty block_time_div_9
calc_difficulty-eq-formula config time parent delay hd ht hw hp hc =
    let div : ℕ = (time - parent.timestamp) / 9 in
    ground (
      arith,
      hd,
      adjusted-eq-target parent.difficulty (has_ommers parent) div hp,
      target-le parent.difficulty (has_ommers parent) div,
      with_bomb-eq (max (target parent.difficulty (has_ommers parent) div) minimum_difficulty)
          (period_count parent.number delay),
    )

with_bomb-le : (d : U256) (p : ℕ) {r : U256} → with_bomb d p ≡ ok r → d ≤ r
unfolding with_bomb
with_bomb-le d p h = ground arith

-- Whatever the inputs, a difficulty that is returned is at least the minimum.
pub minimum-le-calc_difficulty :
    (config : DifficultyConfig) (time : ℕ) (parent : Header) {d : U256}
    → calc_difficulty config time parent ≡ ok d
    → minimum_difficulty ≤ d
unfolding calc_difficulty
minimum-le-calc_difficulty config time parent h =
    let (delay, hd, h1) =
      bind-eq-ok (or_err before_byzantium (bomb_delay config ((parent.number + 1) % u64_mod))) _
        h in
    let (div, ht, h2) = bind-eq-ok (block_time_div_9 time parent.timestamp) _ h1 in
    let (base, ha, h3) =
      bind-eq-ok (adjusted parent.difficulty (sigma2 (has_ommers parent) div)) _ h2 in
    omega (arith, with_bomb-le (max base minimum_difficulty) (period_count parent.number delay) h3)

times_mono : (x a b : ℕ) → a ≤ b → x * a ≤ x * b
times_mono x a b h = grind arith

target_antitone :
    (d : U256) (o : Bool) (early late : ℕ) → early ≤ late → target d o late ≤ target d o early
target_antitone d o early late h = ground (
  arith,
  times_mono (d / 2048) (ommer_bonus o - late) (ommer_bonus o - early),
  times_mono (d / 2048) (min (early - ommer_bonus o) 99) (min (late - ommer_bonus o) 99),
)

-- In the range where the formula holds, a child with a later timestamp never has to meet a higher
-- difficulty.
pub calc_difficulty_antitone :
    (config : DifficultyConfig) (early late : ℕ) (parent : Header) (delay : BombDelay) {d e : U256}
    → bomb_delay config ((parent.number + 1) % u64_mod) ≡ some delay
    → parent.timestamp ≤ early
    → early ≤ late
    → late < u64_mod
    → parent.difficulty < 2 ^ 254
    → period_count parent.number delay ≤ 200
    → calc_difficulty config early parent ≡ ok d
    → calc_difficulty config late parent ≡ ok e
    → e ≤ d
calc_difficulty_antitone config early late parent delay hd he hl hw hp hc x y = ground (
  arith,
  x,
  y,
  calc_difficulty-eq-formula config early parent delay hd he (omega arith) hp hc,
  calc_difficulty-eq-formula config late parent delay hd (omega arith) hw hp hc,
  target_antitone parent.difficulty (has_ommers parent) ((early - parent.timestamp) / 9)
      ((late - parent.timestamp) / 9),
)

-- ===== src/Ethereum/Difficulty.antt =====
-- parachain/primitives/ethereum/src/difficulty.rs: the difficulty that a header must have. The
-- numbers of blocks and times are `u64`, the difficulties `U256`, whose operations panic when they
-- leave 256 bits. `block_time_div_9` fits `i64`, which the conversion tests.
pub mod Formula
mod Tests
use polkadot_ethereum.Frame.Outcome.{◌>>=◌, or_err}
use polkadot_ethereum.Core.{U256}
use polkadot_ethereum.Ethereum.{Header}
use polkadot_ethereum.Prelude.{
  ℕ, suc, Bool, none, ◌^◌, some, ◌/◌, ◌%◌, ◌-◌, ◌+◌, Option, if◌then◌else◌, leb, ltb, max,
}
use polkadot_ethereum.Frame.{err, Result, ok}
use polkadot_ethereum.Prelude.Int.{ℤ, at_least_negsuc, negsuc, sub_ℕ, pos}
use polkadot_ethereum.Prelude.Word.{checked_sub, checked_mul, u64_mod, checked_add, u256_mod}
use polkadot_ethereum.Ethereum.Hashing.{has_ommers}

abbrev pub difficulty_bound_divisor : ℕ
difficulty_bound_divisor = 11

abbrev pub exp_difficulty_period : ℕ
exp_difficulty_period = 100000

abbrev pub minimum_difficulty : ℕ
minimum_difficulty = 131072

pub data BombDelay : Type 0 where
  byzantium constantinople muir_glacier london : BombDelay

-- `bomb_delay as u64`
abbrev pub delay_blocks : BombDelay → ℕ
delay_blocks byzantium = 3000000
delay_blocks constantinople = 5000000
delay_blocks muir_glacier = 9000000
delay_blocks london = 9700000

pub record DifficultyConfig : Type 0 where
  pub byzantium_fork_block : ℕ
  pub constantinople_fork_block : ℕ
  pub muir_glacier_fork_block : ℕ
  pub london_fork_block : ℕ

abbrev pub mainnet : DifficultyConfig
mainnet = record {
  byzantium_fork_block = 4370000;
  constantinople_fork_block = 7280000;
  muir_glacier_fork_block = 9200000;
  london_fork_block = 12965000;
}

abbrev pub ropsten : DifficultyConfig
ropsten = record {
  byzantium_fork_block = 1700000;
  constantinople_fork_block = 4230000;
  muir_glacier_fork_block = 7117117;
  london_fork_block = 10499401;
}

unfoldable pub bomb_delay : DifficultyConfig → ℕ → Option BombDelay
bomb_delay config block_number =
    if leb config.london_fork_block block_number
    then some london
    else if leb config.muir_glacier_fork_block block_number
    then some muir_glacier
    else if leb config.constantinople_fork_block block_number
    then some constantinople
    else if leb config.byzantium_fork_block block_number
    then some byzantium
    else none

-- The two error strings, and the abort of an overflow.
pub data DifficultyError : Type 0 where
  before_byzantium invalid_block_time overflow_panic : DifficultyError

abbrev pub i64_limit : ℕ
i64_limit = 2 ^ 63

unfoldable pub block_time_div_9 : ℕ → ℕ → Result DifficultyError ℕ
block_time_div_9 time parent_time = do
  x ← or_err invalid_block_time (checked_sub time parent_time)
  if ltb (x / 9) i64_limit then ok (x / 9) else err invalid_block_time

unfoldable pub sigma2 : Bool → ℕ → ℤ
sigma2 ommers div = at_least_negsuc 98 (sub_ℕ (if ommers then 2 else 1) div)

-- `difficulty >> 11` times a factor that is known not to be negative
abbrev pub adjustment : U256 → ℕ → Result DifficultyError U256
adjustment difficulty factor =
    or_err overflow_panic (checked_mul u256_mod (difficulty / 2 ^ difficulty_bound_divisor) factor)

unfoldable pub adjusted : U256 → ℤ → Result DifficultyError U256
adjusted difficulty (negsuc n) = do
  amount ← adjustment difficulty (suc n)
  or_err overflow_panic (checked_sub difficulty amount)
adjusted difficulty (pos n) = do
  amount ← adjustment difficulty n
  or_err overflow_panic (checked_add u256_mod difficulty amount)

unfoldable pub period_count : ℕ → BombDelay → ℕ
period_count parent_number delay =
    (parent_number - (delay_blocks delay - 1)) / exp_difficulty_period

unfoldable pub with_bomb : U256 → ℕ → Result DifficultyError U256
with_bomb difficulty periods =
    if leb 2 periods
    then (do
      power ← if ltb (periods - 2) 256 then ok (2 ^ (periods - 2)) else err overflow_panic
      or_err overflow_panic (checked_add u256_mod difficulty power))
    else ok difficulty

unfoldable pub calc_difficulty : DifficultyConfig → ℕ → Header → Result DifficultyError U256
calc_difficulty config time parent = do
  delay ← or_err before_byzantium (bomb_delay config ((parent.number + 1) % u64_mod))
  div ← block_time_div_9 time parent.timestamp
  difficulty_without_exp ← adjusted parent.difficulty (sigma2 (has_ommers parent) div)
  with_bomb (max difficulty_without_exp minimum_difficulty) (period_count parent.number delay)

-- ===== src/Ethereum/Difficulty.antt =====
-- parachain/primitives/ethereum/src/difficulty.rs: the difficulty that a header must state, from
-- its time and its parent. The arithmetic of `U256` panics where it would overflow, which is the
-- fault `overflow` here.
pub mod Bounds
use snowbridge.Shared.{
  ℕ, zero, suc, ◌+◌, ◌-◌, ◌*◌, ◌/◌, ◌%◌, ◌^◌, min, max, Bool, true, false, Option, none, some, ltb,
  leb, if◌then◌else◌,
}
use snowbridge.Shared.Outcome.{Result, ok, err, ok_or, ◌>>=◌}
use snowbridge.Ethereum.Header.{Header, has_ommers}

abbrev pub difficulty_bound_divisor : ℕ
difficulty_bound_divisor = 11

abbrev pub exp_difficulty_period : ℕ
exp_difficulty_period = 100000

abbrev pub minimum_difficulty : ℕ
minimum_difficulty = 131072

pub data BombDelay : Type 0 where
  byzantium : BombDelay
  constantinople : BombDelay
  muir_glacier : BombDelay
  london : BombDelay

-- `bomb_delay as u64`
abbrev pub delay_blocks : BombDelay → ℕ
delay_blocks BombDelay.byzantium = 3000000
delay_blocks BombDelay.constantinople = 5000000
delay_blocks BombDelay.muir_glacier = 9000000
delay_blocks BombDelay.london = 9700000

pub record DifficultyConfig : Type 0 where
  pub byzantium_fork_block : ℕ
  pub constantinople_fork_block : ℕ
  pub muir_glacier_fork_block : ℕ
  pub london_fork_block : ℕ

abbrev pub mainnet : DifficultyConfig
mainnet = record {
  byzantium_fork_block = 4370000;
  constantinople_fork_block = 7280000;
  muir_glacier_fork_block = 9200000;
  london_fork_block = 12965000;
}

abbrev pub ropsten : DifficultyConfig
ropsten = record {
  byzantium_fork_block = 1700000;
  constantinople_fork_block = 4230000;
  muir_glacier_fork_block = 7117117;
  london_fork_block = 10499401;
}

unfoldable pub bomb_delay : DifficultyConfig → ℕ → Option BombDelay
bomb_delay config block_number =
    if leb config.london_fork_block block_number
    then some BombDelay.london
    else (if leb config.muir_glacier_fork_block block_number
        then some BombDelay.muir_glacier
        else (if leb config.constantinople_fork_block block_number
            then some BombDelay.constantinople
            else (if leb config.byzantium_fork_block block_number
                then some BombDelay.byzantium
                else none)))

pub data Fault : Type 0 where
  before_byzantium : Fault
  invalid_block_time : Fault
  overflow : Fault

-- `i64`, over the native numbers; `negsuc n` is `- (n + 1)`.
pub data ℤ : Type 0 where
  pos : ℕ → ℤ
  negsuc : ℕ → ℤ

-- `a - b` of two `i64` that are not negative.
abbrev pub difference : ℕ → ℕ → ℤ
difference a b = if leb b a then ℤ.pos (a - b) else ℤ.negsuc (b - a - 1)

-- `.max(-99)`
abbrev pub max_minus_99 : ℤ → ℤ
max_minus_99 (ℤ.pos n) = ℤ.pos n
max_minus_99 (ℤ.negsuc n) = ℤ.negsuc (min n 98)

-- A result of `U256` arithmetic.
abbrev pub u256 : ℕ → Result Fault ℕ
u256 n = if ltb n (2 ^ 256) then ok n else err overflow

-- `time.checked_sub(..)` and `i64::try_from(x / 9)`.
unfoldable pub block_time_div_9 : ℕ → ℕ → Result Fault ℕ
block_time_div_9 time parent_time =
    if ltb time parent_time
    then err invalid_block_time
    else (if ltb ((time - parent_time) / 9) (2 ^ 63)
        then ok ((time - parent_time) / 9)
        else err invalid_block_time)

unfoldable pub sigma2 : Bool → ℕ → ℤ
sigma2 ommers time_div_9 = max_minus_99 (difference (if ommers then 2 else 1) time_div_9)

-- `parent.difficulty` and its adjustment.
unfoldable pub adjusted : ℕ → ℤ → Result Fault ℕ
adjusted difficulty (ℤ.negsuc n) =
    if ltb difficulty (difficulty / 2 ^ difficulty_bound_divisor * suc n)
    then err overflow
    else ok (difficulty - difficulty / 2 ^ difficulty_bound_divisor * suc n)
adjusted difficulty (ℤ.pos n) = u256 (difficulty + difficulty / 2 ^ difficulty_bound_divisor * n)

unfoldable pub period_count : ℕ → BombDelay → ℕ
period_count parent_number delay =
    (parent_number - (delay_blocks delay - 1)) / exp_difficulty_period

unfoldable pub add_exp : ℕ → ℕ → Result Fault ℕ
add_exp difficulty_without_exp exponent = do
  exp ← u256 (2 ^ exponent)
  u256 (difficulty_without_exp + exp)

unfoldable pub with_exp : ℕ → ℕ → Result Fault ℕ
with_exp difficulty_without_exp periods =
    if leb 2 periods
    then add_exp difficulty_without_exp (periods - 2)
    else ok difficulty_without_exp

unfoldable pub calc_difficulty : DifficultyConfig → ℕ → Header → Result Fault ℕ
calc_difficulty config time parent = do
  delay ← ok_or (bomb_delay config ((parent.number + 1) % 2 ^ 64)) before_byzantium
  time_div_9 ← block_time_div_9 time parent.timestamp
  difficulty ← adjusted parent.difficulty (sigma2 (has_ommers parent) time_div_9)
  with_exp (max difficulty minimum_difficulty) (period_count parent.number delay)

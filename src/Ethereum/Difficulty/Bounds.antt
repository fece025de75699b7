-- ===== src/Ethereum/Difficulty/Bounds.antt =====
-- How far the difficulty of a header is from its parent's.
use native.Mathlib.Nat.{pow-le-pow_right, mul-add, mul-le-mul_left}
use snowbridge.Shared.{
  ℕ, suc, ◌+◌, ◌-◌, ◌*◌, ◌/◌, ◌%◌, ◌^◌, ◌≤◌, ◌<◌, min, max, Bool, true, some, ltb, leb,
  if◌then◌else◌, ◌≡◌, refl, ap, sym, ◌∙◌, ◌⊎◌, inl, inr, arith, Option-cases, is_some, Bool-cases,
}
use snowbridge.Shared.Outcome.{ok, err, Result-cases}
use snowbridge.Ethereum.Header.{Header, has_ommers}
use snowbridge.Ethereum.Difficulty.{
  BombDelay, DifficultyConfig, ℤ, bomb_delay, block_time_div_9, sigma2, adjusted, period_count,
  with_exp, add_exp, calc_difficulty, overflow, max_minus_99, difference,
}

-- The exponential part.
unfoldable pub bomb : ℕ → ℕ
bomb periods = if leb 2 periods then 2 ^ (periods - 2) else 0

with_exp_result : (d periods : ℕ) {r : ℕ} → with_exp d periods ≡ ok r → r ≡ d + bomb periods
unfolding with_exp bomb add_exp
with_exp_result d periods h = ground arith

-- A product of a sum.
mul-split : (q a b c : ℕ) → a + b ≡ c → q * a + q * b ≡ q * c
mul-split q a b c e = sym (mul-add q a b) ∙ ap (λ x. q * x) e

adjusted-pos : (d n : ℕ) {r : ℕ} → adjusted d (ℤ.pos n) ≡ ok r → r ≡ d + d / 2048 * n
unfolding adjusted
adjusted-pos d n h = ground arith

checked_sub : (a b : ℕ) {r : ℕ} → (if ltb a b then err overflow else ok (a - b)) ≡ ok r → r + b ≡ a
checked_sub a b h = ground arith

adjusted-negsuc :
    (d n k : ℕ) {r : ℕ} → adjusted d (ℤ.negsuc n) ≡ ok r → suc n ≡ k → r + d / 2048 * k ≡ d
unfolding adjusted
adjusted-negsuc d n k {r} h e =
    ap (λ x. r + d / 2048 * x) (sym e) ∙ checked_sub d (d / 2048 * suc n) h

difference-cases :
    (a b : ℕ)
    → ((b ≤ a) × (difference a b ≡ ℤ.pos (a - b)))
      ⊎ ((a < b) × (difference a b ≡ ℤ.negsuc (b - a - 1)))
difference-cases a b = ground arith

-- What the adjustment adds and takes away, for a block time of `t` periods of nine seconds.
adjusted_balance :
    (d base t : ℕ) {r : ℕ}
    → adjusted d (max_minus_99 (difference base t)) ≡ ok r
    → r + d / 2048 * min t (base + 99) ≡ d + d / 2048 * base
adjusted_balance d base t {r} h = elim (difference-cases base t) [
  | inl (t≤base, e) ↦
      let split : d / 2048 * (base - t) + d / 2048 * min t (base + 99) ≡ d / 2048 * base =
        mul-split (d / 2048) _ _ _ (omega arith) in
      let value = adjusted-pos d (base - t) (sym (ap (λ z. adjusted d (max_minus_99 z)) e) ∙ h) in
      omega arith
  | inr (base<t, e) ↦
      let split : d / 2048 * min (t - base) 99 + d / 2048 * base ≡ d / 2048 * min t (base + 99) =
        mul-split (d / 2048) _ _ _ (omega arith) in
      let value =
        adjusted-negsuc d (min (t - base - 1) 98) (min (t - base) 99)
          (sym (ap (λ z. adjusted d (max_minus_99 z)) e) ∙ h) (omega arith) in
      omega arith
]

-- What an accepted calculation is made of.
IsCalculated : DifficultyConfig → ℕ → Header → ℕ → Type 0
IsCalculated config time parent r =
    (delay : BombDelay) × (bomb_delay config ((parent.number + 1) % 2 ^ 64) ≡ some delay)
    × (parent.timestamp ≤ time)
    × (a : ℕ) × (adjusted parent.difficulty
          (sigma2 (has_ommers parent) ((time - parent.timestamp) / 9))
        ≡ ok a)
    × (r ≡ max a 131072 + bomb (period_count parent.number delay))

calc_difficulty_parts :
    (config : DifficultyConfig) (time : ℕ) (parent : Header) {r : ℕ}
    → calc_difficulty config time parent ≡ ok r
    → IsCalculated config time parent r
unfolding calc_difficulty IsCalculated block_time_div_9
calc_difficulty_parts config time parent h =
    elim (Option-cases (bomb_delay config ((parent.number + 1) % 2 ^ 64))) [
      | inl e ↦ ground arith
      | inr (delay, e) ↦
          elim (Result-cases (
            adjusted parent.difficulty
              (sigma2 (has_ommers parent) ((time - parent.timestamp) / 9)))) [
                | inl (a, ea) ↦ (
                  delay,
                  e,
                  ground arith,
                  a,
                  ea,
                  with_exp_result (max a 131072) (period_count parent.number delay) ground arith,
                )
                | inr (f, ef) ↦ ground arith
              ]
    ]

base : Bool → ℕ
base ommers = if ommers then 2 else 1

base-le : (ommers : Bool) → base ommers ≤ 2
unfolding base
base-le ommers = ground arith

adjusted-sigma2 :
    (d : ℕ) (ommers : Bool) (t : ℕ) {a : ℕ}
    → adjusted d (sigma2 ommers t) ≡ ok a
    → a + d / 2048 * min t (base ommers + 99) ≡ d + d / 2048 * base ommers
unfolding sigma2 base
adjusted-sigma2 d ommers t h = adjusted_balance d (base ommers) t h

adjusted_range :
    (d : ℕ) (ommers : Bool) (t : ℕ) {a : ℕ}
    → adjusted d (sigma2 ommers t) ≡ ok a
    → (d ≤ a + d / 2048 * 99) × (a ≤ d + d / 2048 * 2)
adjusted_range d ommers t h =
    let value = adjusted-sigma2 d ommers t h in
    let most : d / 2048 * min t (base ommers + 99) ≤ d / 2048 * (base ommers + 99) =
      mul-le-mul_left (d / 2048) (omega arith) in
    let split = mul-add (d / 2048) (base ommers) 99 in
    let small = mul-le-mul_left (d / 2048) (base-le ommers) in (omega arith, omega arith)

adjusted_later :
    (d : ℕ) (ommers : Bool) (t t' : ℕ) {a a' : ℕ}
    → t ≤ t'
    → adjusted d (sigma2 ommers t) ≡ ok a
    → adjusted d (sigma2 ommers t') ≡ ok a'
    → a' ≤ a
adjusted_later d ommers t t' later h h' =
    let value = adjusted-sigma2 d ommers t h in
    let value' = adjusted-sigma2 d ommers t' h' in
    let more : d / 2048 * min t (base ommers + 99) ≤ d / 2048 * min t' (base ommers + 99) =
      mul-le-mul_left (d / 2048) (omega arith) in
    omega arith

-- A difficulty that is calculated is the sum of the exponential part of the parent's number and an
-- adjustment of the parent's difficulty, which is at least the minimum, at least the parent's less
-- 99 parts in 2048, and at most the larger of the minimum and the parent's with 2 parts in 2048.
pub calc_difficulty_range :
    (config : DifficultyConfig) (time : ℕ) (parent : Header) {r : ℕ}
    → calc_difficulty config time parent ≡ ok r
    → (delay : BombDelay) × (bomb_delay config ((parent.number + 1) % 2 ^ 64) ≡ some delay)
      × (a : ℕ) × (r ≡ a + bomb (period_count parent.number delay))
      × (131072 ≤ a)
      × (parent.difficulty ≤ a + parent.difficulty / 2048 * 99)
      × (a ≤ max 131072 (parent.difficulty + parent.difficulty / 2048 * 2))
unfolding IsCalculated
calc_difficulty_range config time parent h =
    let (delay, e, _, a, ea, er) = calc_difficulty_parts config time parent h in
    let (lower, upper) =
      adjusted_range parent.difficulty (has_ommers parent) ((time - parent.timestamp) / 9) ea in
    (delay, e, max a 131072, er, omega arith, omega arith, omega arith)

-- Of two times that a child of one parent can state, the later one has no larger difficulty.
pub calc_difficulty_later :
    (config : DifficultyConfig) (time later : ℕ) (parent : Header) {r r' : ℕ}
    → time ≤ later
    → calc_difficulty config time parent ≡ ok r
    → calc_difficulty config later parent ≡ ok r'
    → r' ≤ r
unfolding IsCalculated
calc_difficulty_later config time later parent le h h' =
    let (delay, e, _, a, ea, er) = calc_difficulty_parts config time parent h in
    let (delay', e', _, a', ea', er') = calc_difficulty_parts config later parent h' in
    let less =
      adjusted_later parent.difficulty (has_ommers parent) ((time - parent.timestamp) / 9)
        ((later - parent.timestamp) / 9) (omega arith) ea ea' in
    let same : bomb (period_count parent.number delay) ≡ bomb (period_count parent.number delay') =
      cc in
    omega arith

adjusted_total :
    (d : ℕ) (s : ℤ)
    → d < 2 ^ 254
    → ((n : ℕ) → s ≡ ℤ.pos n → n ≤ 2)
    → (a : ℕ) × (adjusted d (max_minus_99 s) ≡ ok a)
unfolding adjusted
adjusted_total d (ℤ.pos n) small two =
    let most : d / 2048 * n ≤ d / 2048 * 2 = mul-le-mul_left (d / 2048) (two n refl) in
    (d + d / 2048 * n, ground arith)
adjusted_total d (ℤ.negsuc n) small two =
    let most : d / 2048 * suc (min n 98) ≤ d / 2048 * 99 =
      mul-le-mul_left (d / 2048) (omega arith) in
    (d - d / 2048 * suc (min n 98), ground arith)

with_exp_total :
    (d periods : ℕ) → d < 2 ^ 255 → periods ≤ 256 → (r : ℕ) × (with_exp d periods ≡ ok r)
unfolding with_exp add_exp
with_exp_total d periods small few =
    let exponent : periods - 2 ≤ 254 = (omega arith) in
    let two : 0 < 2 = (omega arith) in
    let most : 2 ^ (periods - 2) ≤ 2 ^ 254 = pow-le-pow_right two exponent in
    elim (Bool-cases (leb 2 periods)) [
      | inl large ↦ (d + 2 ^ (periods - 2), ground arith)
      | inr tiny ↦ (d, ground arith)
    ]

period_count-le : (n : ℕ) (delay : BombDelay) → n < 28000000 → period_count n delay ≤ 256
unfolding period_count
period_count-le n BombDelay.byzantium low = omega arith
period_count-le n BombDelay.constantinople low = omega arith
period_count-le n BombDelay.muir_glacier low = omega arith
period_count-le n BombDelay.london low = omega arith

sigma2-pos : (ommers : Bool) (t n : ℕ) → difference (base ommers) t ≡ ℤ.pos n → n ≤ 2
unfolding base
sigma2-pos ommers t n e = elim (difference-cases (base ommers) t) [
  | inl (le, e') ↦ ground (arith, base-le ommers)
  | inr (lt, e') ↦ cc
]

-- Where Byzantium has begun, the parent is below block 28,000,000 and its difficulty below 2 ^ 254,
-- no time from the parent's on makes the calculation fail or overflow.
pub calc_difficulty_total :
    (config : DifficultyConfig) (time : ℕ) (parent : Header)
    → parent.number < 28000000
    → parent.difficulty < 2 ^ 254
    → is_some (bomb_delay config (parent.number + 1)) ≡ true
    → parent.timestamp ≤ time
    → time < 2 ^ 64
    → (r : ℕ) × (calc_difficulty config time parent ≡ ok r)
unfolding calc_difficulty block_time_div_9 sigma2 base
calc_difficulty_total config time parent low small byzantium order u64 =
    let t = (time - parent.timestamp) / 9 in
    let (a, ea) =
      adjusted_total parent.difficulty (difference (base (has_ommers parent)) t) small
        (sigma2-pos (has_ommers parent) t) in
    let (_, upper) = adjusted_range parent.difficulty (has_ommers parent) t ea in
    elim (Option-cases (bomb_delay config (parent.number + 1))) [
      | inl e ↦ ground arith
      | inr (delay, e) ↦
          let (r, er) =
            with_exp_total (max a 131072) (period_count parent.number delay) (omega arith)
              (period_count-le parent.number delay low) in
          (r, ground arith)
    ]

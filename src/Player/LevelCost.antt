-- ===== src/Player/LevelCost.antt =====
-- What a level costs, the curve of `getExpForLevel` of player.h.
use otchronos.Prelude.{ℕ, zero, suc, ◌+◌, ◌-◌, ◌*◌, ◌^◌, ◌<◌, ◌≡◌, refl, arith}
use otchronos.Player.Level.{get_exp_for_level}

-- The polynomial's differences, summed.
unfoldable exp_spec : ℕ → ℕ
exp_spec zero = 0
exp_spec (suc n) = exp_spec n + 50 * (n * (n - 1)) + 100

cubic : (n : ℕ) → 50 * n * n * n + 400 * n ≡ 150 * n * n + 3 * exp_spec n
unfolding exp_spec
cubic zero = refl
cubic (suc zero) = refl
cubic (suc (suc m)) = let ih = cubic (suc m) in grind (arith, ih)

get_exp_for_level-exp_spec :
    (n : ℕ) → 50 * n * n * n + 400 * n < 2 ^ 64 → get_exp_for_level (n + 1) ≡ exp_spec n
unfolding get_exp_for_level
get_exp_for_level-exp_spec n h = let c = cubic n in ground (arith, c)

cube_mono :
    (n : ℕ)
    → 50 * (n + 1) * (n + 1) * (n + 1) + 400 * (n + 1) < 2 ^ 64
    → 50 * n * n * n + 400 * n < 2 ^ 64
cube_mono n h = grind (arith, h)

-- `getExpForLevel`, as long as its cube fits in 64 bits: level 1 needs no experience, and each
-- level needs `50 (n² - n) + 100` points more than the one before it, the `n`-th level above the
-- first.
pub get_exp_for_level_lem :
    (n : ℕ)
    → 50 * (n + 1) * (n + 1) * (n + 1) + 400 * (n + 1) < 2 ^ 64
    → (get_exp_for_level 1 ≡ 0)
      × (get_exp_for_level (n + 2) ≡ get_exp_for_level (n + 1) + 50 * (n * (n - 1)) + 100)
unfolding exp_spec
get_exp_for_level_lem n h =
    let a = get_exp_for_level-exp_spec n (cube_mono n h) in
    let b = get_exp_for_level-exp_spec (suc n) (grind (arith, h)) in
    let next : n + 2 ≡ suc n + 1 = omega arith in
    (get_exp_for_level-exp_spec 0 (omega arith), rw next (omega (arith, a, b)))

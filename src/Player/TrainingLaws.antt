-- ===== src/Player/TrainingLaws.antt =====
-- What training earns, and that nothing of it is lost below the top level.
use native.Mathlib.Nat.{mod-eq_of_lt}
use otchronos.Prelude.{
  ℕ, suc, ◌+◌, ◌%◌, ◌^◌, ◌≤◌, ◌<◌, ◌≡◌, refl, some, true, false, ◌==◌, leb, arith, Bool-cases, inl,
  inr, ◌⊎◌,
}
use otchronos.Player.Climb.{Climb, climb, cost, IsWidth, IsClimbing, Climbed, climb-Climbed}
use otchronos.Player.Training.{
  Progress, start, settle, settle_mana, add_skill_advance, add_mana_spent,
  add_offline_training_tries, round_mana,
}

-- A level below the top, with less spent than the next one costs.
pub record IsTraining (req : ℕ → ℕ) (p : Progress) : Type 0 where
  pub short : p.spent < req (p.level + 1)
  pub rising : req p.level < req (p.level + 1)

-- What a gain of `amount` comes to, from `p` to `q`: `k` levels, each paid in full and the rest
-- kept; or the top level, where the rest is lost.
abbrev pub Earned : (ℕ → ℕ) → ℕ → Progress → Progress → Type 0
Earned req amount p q =
    (k : ℕ) × (q.level ≡ p.level + k)
    × (((cost req p.level k + q.spent ≡ p.spent + amount) × IsTraining req q)
        ⊎ ((q.spent ≡ 0) × (req (q.level + 1) ≤ req q.level)))

climbing :
    (req : ℕ → ℕ) (size amount : ℕ) (p : Progress)
    → IsTraining req p
    → ((l : ℕ) → req l < 2 ^ 64)
    → p.spent + amount < size
    → IsClimbing req size (start req amount p)
unfolding start
climbing req size amount p t b f = record {
  short = t.short;
  rising = t.rising;
  here = refl;
  dear = refl;
  narrow = b (p.level + 1);
  fits = f;
  running = refl;
}

-- The loop's end as `settle` leaves it.
settle_earns :
    (req : ℕ → ℕ) (size amount : ℕ) (p : Progress) (c : Climb)
    → p.spent + amount < size
    → Climbed req (start req amount p) c
    → Earned req amount p (settle req size c)
unfolding start settle
settle_earns req size amount p c f h = elim (Bool-cases c.capped) [
  | inl t ↦ (
    h.gained,
    h.level,
    inr (ground (arith, (h.lost t).0), omega (arith, (h.lost t).1, h.here, h.dear)),
  )
  | inr k ↦
      let (paid, short, rising) = h.kept k in
      let same = mod-eq_of_lt {n = c.spent + c.amount} {m = size} (omega (arith, paid, f)) in
      (
        h.gained,
        h.level,
        inl (
          omega (arith, same, paid),
          record {
            short = omega (arith, same, short, h.dear);
            rising = omega (arith, rising, h.here, h.dear);
          },
        ),
      )
]

-- The same of the loop's end as `settle_mana` leaves it.
settle_mana_earns :
    (req : ℕ → ℕ) (size amount : ℕ) (p : Progress) (c : Climb)
    → p.spent + amount < size
    → Climbed req (start req amount p) c
    → Earned req amount p (settle_mana req size p c)
unfolding start settle_mana
settle_mana_earns req size amount p c f h = elim (Bool-cases c.capped) [
  | inl t ↦ rw t (
    h.gained,
    h.level,
    inr (omega (arith, (h.lost t).0), omega (arith, (h.lost t).1, h.here, h.dear)),
  )
  | inr k ↦ rw k (settle_earns req size amount p c f h)
]

-- Nothing gained is nothing earned.
unearned :
    (req : ℕ → ℕ) (amount : ℕ) (p : Progress)
    → IsTraining req p
    → (amount == 0) ≡ true
    → Earned req amount p p
unfolding cost
unearned req amount p t z = (0, omega arith, inl (ground (arith, z), t))

module _ (req : ℕ → ℕ) (amount : ℕ) (p : Progress) (t : IsTraining req p)
    (b : (l : ℕ) → req l < 2 ^ 64) where
  open_level : leb (req (p.level + 1)) (req p.level) ≡ false
  open_level = ground (arith, t.rising)

  -- The loop ends on the fuel it is given.
  ends :
      (size : ℕ)
      → IsWidth size
      → p.spent + amount < size
      → (c : Climb) × (climb req size (suc amount) (start req amount p) ≡ some c)
        × Climbed req (start req amount p) c
  unfolding start
  ends size width f =
      climb-Climbed req size (suc amount) (start req amount p) width b
        (climbing req size amount p t b f) (omega arith)

  -- `addSkillAdvance`, from a level below the top with less spent than the next one costs, where
  -- no cost takes more than 64 bits and what is spent and gained fits in 32: the tries
  -- gained pay for the levels gained and for what is then spent towards the next, which is again
  -- less than that costs, so that nothing is lost; or the top is reached and nothing is spent.
  pub add_skill_advance_lem :
      p.spent + amount < 2 ^ 32 → Earned req amount p (add_skill_advance req amount p)
  unfolding add_skill_advance
  add_skill_advance_lem f =
      let (c, done, h) = ends (2 ^ 32) (inl refl) f in
      elim (Bool-cases (amount == 0)) [
        | inl z ↦ rw z (unearned req amount p t z)
        | inr z ↦ rw (z, open_level, done) (settle_earns req (2 ^ 32) amount p c f h)
      ]

  -- `addManaSpent`, for a player whom no flag keeps from it, from a level below the top with less
  -- spent than the next one costs, where no cost takes more than 64 bits and what is spent and
  -- gained fits in 64: the mana pays for the levels gained and for what is then spent towards the
  -- next, which is again less than that costs; or the top is reached and nothing is spent.
  pub add_mana_spent_lem :
      p.spent + amount < 2 ^ 64 → Earned req amount p (add_mana_spent req false amount p)
  unfolding add_mana_spent
  add_mana_spent_lem f =
      let (c, done, h) = ends (2 ^ 64) (inr refl) f in
      elim (Bool-cases (amount == 0)) [
        | inl z ↦ rw z (unearned req amount p t z)
        | inr z ↦ rw (z, open_level, done) (settle_mana_earns req (2 ^ 64) amount p c f h)
      ]

-- `addOfflineTrainingTries`, for a skill or for the magic level (`size` is the width of the sum),
-- from a level below the top with less spent than the next one costs, where no cost takes more
-- than 64 bits, the product of the tries by the server's rate, converted to an `int32_t`, is in the range
-- of that type and not negative, 0 for no tries, and the sum fits: what that product is pays for the levels
-- gained and for what is then spent towards the next, which is again less than that costs; or the
-- top is reached and nothing is spent.
pub add_offline_training_tries_lem :
    (req : ℕ → ℕ) (size : ℕ) (by_rate : ℕ → ℕ) (tries : ℕ) (p : Progress)
    → by_rate 0 ≡ 0
    → by_rate tries < 2 ^ 31
    → IsWidth size
    → IsTraining req p
    → ((l : ℕ) → req l < 2 ^ 64)
    → p.spent + by_rate tries < size
    → Earned req (by_rate tries) p (add_offline_training_tries req size by_rate tries p).0
unfolding add_offline_training_tries
add_offline_training_tries_lem req size by_rate tries p zero_rate int32 width t b f =
    let (c, done, h) = ends req (by_rate tries) p t b size width f in
    elim (Bool-cases (tries == 0)) [
      | inl z ↦ rw z (unearned req (by_rate tries) p t (ground (arith, z, zero_rate)))
      | inr z ↦
          rw (z, open_level req (by_rate tries) p t b, done)
            (settle_earns req size (by_rate tries) p c f h)
    ]

-- `getReqMana` rounds 20 and more to a multiple of 20 that is not above it, and off by less than 40.
pub round_mana_lem :
    (raw : ℕ)
    → 20 ≤ raw
    → raw < 2 ^ 64
    → (round_mana raw % 20 ≡ 0) × (round_mana raw ≤ raw) × (raw < round_mana raw + 40)
unfolding round_mana
round_mana_lem raw h k = (ground arith, ground arith, ground arith)

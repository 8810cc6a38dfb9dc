-- ===== src/Player/LevelLaws.antt =====
-- That the level always fits the experience, whatever is gained and lost.
use native.Mathlib.Nat.{mod-eq_of_lt}
use otchronos.Prelude.{
  ℕ, zero, suc, ◌+◌, ◌-◌, ◌*◌, ◌^◌, ◌≤◌, ◌<◌, ◌≡◌, refl, ap, some, Bool, false, ◌==◌, ◌&&◌, ◌||◌,
  ltb, leb, arith, Bool-cases, ◌⊎◌, inl, inr,
}
use otchronos.Player.Level.{
  Body, Gains, Terms, grow, shrink, level_up, level_down, refill, put_experience, put_percent,
  rated, take_experience, add_experience, less_experience, drop_experience, remove_experience,
}

-- The level fits the experience.
pub record IsLevelled (need : ℕ → ℕ) (p : Body) : Type 0 where
  pub reached : need p.level ≤ p.experience
  pub below : p.experience < need (p.level + 1)

-- `k` levels up from `p`, and where the loop stops.
pub record Grown (need : ℕ → ℕ) (g : Gains) (p q : Body) : Type 0 where
  pub gained : ℕ
  pub level : q.level ≡ p.level + gained
  pub experience : q.experience ≡ p.experience
  pub health_max : q.health_max ≡ p.health_max + gained * g.hp
  pub mana_max : q.mana_max ≡ p.mana_max + gained * g.mana
  pub capacity : q.capacity ≡ p.capacity + gained * g.cap
  pub stop : IsLevelled need q ⊎ (need (q.level + 1) ≤ need q.level)

level_up_top :
    (need : ℕ → ℕ) (g : Gains) (p : Body)
    → need (p.level + 1 + 1) ≤ need (p.level + 1)
    → Grown need g p (grow g p)
unfolding grow
level_up_top need g p h = record {
  gained = 1;
  level = refl;
  experience = refl;
  health_max = omega arith;
  mana_max = omega arith;
  capacity = omega arith;
  stop = inr h;
}

level_up_after :
    (need : ℕ → ℕ) (g : Gains) (p q : Body) → Grown need g (grow g p) q → Grown need g p q
unfolding grow
level_up_after need g p q h = record {
  gained = suc h.gained;
  level = omega (arith, h.level);
  experience = h.experience;
  health_max = omega (arith, h.health_max);
  mana_max = omega (arith, h.mana_max);
  capacity = omega (arith, h.capacity);
  stop = h.stop;
}

level_up-Grown :
    (need : ℕ → ℕ) (g : Gains) (fuel : ℕ) (p : Body)
    → need p.level < need (p.level + 1)
    → need p.level ≤ p.experience
    → p.experience < need p.level + fuel
    → (q : Body) × (level_up need g fuel p ≡ some q) × Grown need g p q
unfolding level_up grow
level_up-Grown need g zero p r h f = absurd (omega arith)
level_up-Grown need g (suc fuel) p r h f =
    elim (Bool-cases (leb (need (p.level + 1)) p.experience)) [
      | inr n ↦ rw n (
        p,
        refl,
        record {
          gained = 0;
          level = omega arith;
          experience = refl;
          health_max = omega arith;
          mana_max = omega arith;
          capacity = omega arith;
          stop = inl (record { reached = h; below = ground (arith, n) });
        },
      )
      | inl y ↦ elim (Bool-cases (leb (need (p.level + 1 + 1)) (need (p.level + 1)))) [
        | inl top ↦ rw (y, top) (grow g p, refl, level_up_top need g p (ground (arith, top)))
        | inr on ↦
            let (q, done, k) =
              level_up-Grown need g fuel (grow g p) (ground (arith, on)) (ground (arith, y))
                (omega (arith, r)) in
            rw (y, on) (q, done, level_up_after need g p q k)
      ]
    ]

-- The fields by which the level is judged.
settled :
    (need : ℕ → ℕ) (old : ℕ) (q : Body)
    → ((put_percent need (refill old q)).level ≡ q.level)
      × ((put_percent need (refill old q)).experience ≡ q.experience)
unfolding put_percent refill
settled need old q = elim (Bool-cases (old == q.level)) [
  | inl y ↦ rw y (refl, refl)
  | inr n ↦ rw n (refl, refl)
]

refilled :
    (need : ℕ → ℕ) (old : ℕ) (q : Body)
    → ((put_percent need (refill old q)).health_max ≡ q.health_max)
      × ((put_percent need (refill old q)).mana_max ≡ q.mana_max)
      × ((put_percent need (refill old q)).capacity ≡ q.capacity)
unfolding put_percent refill
refilled need old q = elim (Bool-cases (old == q.level)) [
  | inl y ↦ rw y (refl, refl, refl)
  | inr n ↦ rw n (refl, refl, refl)
]

healed :
    (need : ℕ → ℕ) (old : ℕ) (q : Body) (gained : ℕ)
    → q.level ≡ old + gained
    → (gained ≡ 0)
      ⊎ (((put_percent need (refill old q)).health ≡ (put_percent need (refill old q)).health_max)
          × ((put_percent need (refill old q)).mana ≡ (put_percent need (refill old q)).mana_max))
unfolding put_percent refill
healed need old q gained l = elim (Bool-cases (old == q.level)) [
  | inl y ↦ inl (ground (arith, y, l))
  | inr n ↦ inr (rw n (refl, refl))
]

settled-IsLevelled :
    (need : ℕ → ℕ) (old : ℕ) (q : Body)
    → IsLevelled need q
    → IsLevelled need (put_percent need (refill old q))
settled-IsLevelled need old q v =
    let (l, e) = settled need old q in
    record { reached = rw (l, e) (v.reached); below = rw (l, e) (v.below) }

settled-top :
    (need : ℕ → ℕ) (old : ℕ) (q : Body)
    → need (q.level + 1) ≤ need q.level
    → need ((put_percent need (refill old q)).level + 1)
      ≤ need (put_percent need (refill old q)).level
settled-top need old q h = rw ((settled need old q).0) h

-- Where the loop of `removeExperience` stops.
floor :
    (need : ℕ → ℕ) (p : Body)
    → need 1 ≡ 0
    → 1 ≤ p.level
    → (ltb 1 p.level && ltb p.experience (need p.level)) ≡ false
    → need p.level ≤ p.experience
floor need p z o n = elim (Bool-cases (ltb 1 p.level)) [
  | inl y ↦ ground (arith, n, y)
  | inr m ↦
      let one : p.level ≡ 1 = ground (arith, m, o) in
      let none_needed = ap need one in omega (arith, z, none_needed)
]

level_down-IsLevelled :
    (need : ℕ → ℕ) (g : Gains) (fuel : ℕ) (p : Body)
    → need 1 ≡ 0
    → 1 ≤ p.level
    → p.level < fuel
    → p.experience < need (p.level + 1)
    → (q : Body) × (level_down need g fuel p ≡ some q)
      × (q.experience ≡ p.experience)
      × IsLevelled need q
      × (1 ≤ q.level)
      × (q.level ≤ p.level)
unfolding level_down shrink
level_down-IsLevelled need g zero p z o f b = absurd (omega arith)
level_down-IsLevelled need g (suc fuel) p z o f b =
    elim (Bool-cases (ltb 1 p.level && ltb p.experience (need p.level))) [
      | inl y ↦
          let up : p.level - 1 + 1 ≡ p.level = omega (arith, o) in
          let back = ap need up in
          let (q, done, e, v, o', l) =
            level_down-IsLevelled need g fuel (shrink g p) z (ground (arith, y)) (ground (arith, y))
              (ground (arith, y, back)) in
          rw y (q, done, e, v, o', omega (arith, l))
      | inr n ↦
          rw n (p, refl, refl, record { reached = floor need p z o n; below = b }, o, omega arith)
    ]

-- What `addExperience` promises: `e` more experience, and levels that each give what the vocation
-- gives; the level then fits the experience, or it is the top level.
pub record Advanced (need : ℕ → ℕ) (g : Gains) (e : ℕ) (p q : Body) : Type 0 where
  pub gained : ℕ
  pub level : q.level ≡ p.level + gained
  pub experience : q.experience ≡ p.experience + e
  pub health_max : q.health_max ≡ p.health_max + gained * g.hp
  pub mana_max : q.mana_max ≡ p.mana_max + gained * g.mana
  pub capacity : q.capacity ≡ p.capacity + gained * g.cap
  pub healed : (gained ≡ 0) ⊎ ((q.health ≡ q.health_max) × (q.mana ≡ q.mana_max))
  pub stop : IsLevelled need q ⊎ (need (q.level + 1) ≤ need q.level)

advanced :
    (need : ℕ → ℕ) (g : Gains) (e : ℕ) (p q : Body)
    → Grown need g (put_experience (p.experience + e) p) q
    → Advanced need g e p (put_percent need (refill p.level q))
unfolding put_experience
advanced need g e p q h =
    let (l, x) = settled need p.level q in
    let (m, n, c) = refilled need p.level q in
    record {
      gained = h.gained;
      level = rw l (h.level);
      experience = rw x (h.experience);
      health_max = rw m (h.health_max);
      mana_max = rw n (h.mana_max);
      capacity = rw c (h.capacity);
      healed = healed need p.level q h.gained h.level;
      stop = elim h.stop [
        | inl v ↦ inl (settled-IsLevelled need p.level q v)
        | inr k ↦ inr (settled-top need p.level q k)
      ];
    }

module _ (need : ℕ → ℕ) (g : Gains) (t : Terms) where
  -- `addExperience`, for a player whose level fits the experience, where the scripts let `e` points
  -- through and the sum fits in 64 bits: the experience grows by `e`; the hit points, the mana and
  -- the capacity grow by what each level gained gives, with hit points and mana full after a
  -- level; and the level again fits the experience, or it is the top level.
  pub add_experience_lem :
      (stamina multiplier : Bool) (exp e : ℕ) (p : Body)
      → IsLevelled need p
      → t.on_gain (rated t stamina multiplier p.level exp) exp ≡ some e
      → p.experience + e < 2 ^ 64
      → Advanced need g e p (add_experience need g t stamina multiplier exp p)
  unfolding add_experience take_experience put_experience
  add_experience_lem stamina multiplier exp e p v a f =
      let same = mod-eq_of_lt {n = p.experience + e} {m = 2 ^ 64} f in
      let lower : leb (need (p.level + 1)) (need p.level) ≡ false =
        ground (arith, v.reached, v.below) in
      let (q, done, h) =
        level_up-Grown need g (suc (p.experience + e)) (put_experience (p.experience + e) p)
          (omega (arith, v.reached, v.below)) (omega (arith, v.reached)) (omega arith) in
      rw (lower, a, take_experience, same, done) (advanced need g e p q h)

  less_experience_lem : (a b : ℕ) → a < 2 ^ 63 → b < 2 ^ 63 → less_experience need g t a b ≡ a - b
  unfolding less_experience
  less_experience_lem a b h k = ground arith

  -- `removeExperience`, for a player of level 1 or more whose level fits the experience, where the
  -- first level needs none, the scripts turn the loss of `exp` points, which are not 0, into one
  -- of `e`, and both `e` and the experience stay below `2 ^ 63`: the experience falls by `e`, to 0
  -- at least, and the level again fits it, is no higher than before and at least 1.
  pub remove_experience_lem :
      (exp e : ℕ) (p : Body)
      → IsLevelled need p
      → need 1 ≡ 0
      → 1 ≤ p.level
      → 1 ≤ exp
      → t.on_lose exp ≡ some e
      → p.experience < 2 ^ 63
      → e < 2 ^ 63
      → IsLevelled need (remove_experience need g t exp p)
        × ((remove_experience need g t exp p).experience ≡ p.experience - e)
        × (1 ≤ (remove_experience need g t exp p).level)
        × ((remove_experience need g t exp p).level ≤ p.level)
  unfolding remove_experience drop_experience put_experience
  remove_experience_lem exp e p v z o x a f k = elim (Bool-cases (p.experience == 0 || exp == 0)) [
    | inl y ↦ rw y (v, ground (arith, y), o, omega arith)
    | inr n ↦
        let less = less_experience_lem p.experience e f k in
        let (q, done, same, v', o', l) =
          level_down-IsLevelled need g (suc p.level) (put_experience (p.experience - e) p) z o
            (omega arith) (omega (arith, v.below)) in
        let (sl, se) = settled need p.level q in
        rw (n, a, drop_experience, less, done)
          (settled-IsLevelled need p.level q v', rw se same, rw sl o', rw sl l)
  ]

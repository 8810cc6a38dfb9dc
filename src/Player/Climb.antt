-- ===== src/Player/Climb.antt =====
-- The loop by which tries or mana are spent on levels. It stands in `Player::addSkillAdvance`,
-- `Player::addManaSpent` and, twice, in `Player::addOfflineTrainingTries`.
use native.Mathlib.Nat.{mod-eq_of_lt}
use otchronos.Prelude.{
  ℕ, zero, suc, ◌+◌, ◌-◌, ◌%◌, ◌^◌, ◌≤◌, ◌<◌, ◌≡◌, refl, Option, none, some, Bool, true, false,
  if◌then◌else◌, leb, arith, Bool-cases, inl, inr, ◌⊎◌, subst, sym,
}

-- The loop's variables: `curr` and `next` are what the level and the one above it cost, `amount` is
-- what is left to spend, and `capped` says that the top level is reached.
pub record Climb : Type 0 where
  pub level : ℕ
  pub spent : ℕ
  pub amount : ℕ
  pub curr : ℕ
  pub next : ℕ
  pub capped : Bool

-- `amount -= next - spent` on unsigned numbers, those of the cost having 64 bits.
unfoldable pub pay : ℕ → ℕ → ℕ → ℕ → ℕ
pay size amount next spent = (amount + 2 ^ 64 - (next + 2 ^ 64 - spent) % 2 ^ 64) % size

module _ (req : ℕ → ℕ) (size : ℕ) where
  -- One more level. At the top nothing is left to spend.
  unfoldable pub rise : Climb → Climb
  unfolding pay
  rise c =
      let after = req (c.level + 2) in
      if leb after c.next
      then record {
        level = c.level + 1;
        spent = 0;
        amount = 0;
        curr = c.next;
        next = after;
        capped = true;
      }
      else record {
        level = c.level + 1;
        spent = 0;
        amount = pay size c.amount c.next c.spent;
        curr = c.next;
        next = after;
        capped = false;
      }

  -- `while (spent + amount >= next)`, whose sum wraps at `size`; `none` means out of fuel.
  unfoldable pub climb : ℕ → Climb → Option Climb
  unfolding rise
  climb zero c = none
  climb (suc fuel) c =
      let c' = rise c in
      let rest = climb fuel c' in
      if leb c.next ((c.spent + c.amount) % size)
      then if c'.capped then some c' else rest
      else some c

-- What `k` levels above level `l` cost together.
unfoldable pub cost : (ℕ → ℕ) → ℕ → ℕ → ℕ
cost req l zero = 0
cost req l (suc k) = req (l + 1) + cost req (l + 1) k

-- The loop's variables while it runs.
pub record IsClimbing (req : ℕ → ℕ) (size : ℕ) (c : Climb) : Type 0 where
  pub short : c.spent < c.next
  pub rising : c.curr < c.next
  pub here : c.curr ≡ req c.level
  pub dear : c.next ≡ req (c.level + 1)
  pub narrow : c.next < 2 ^ 64
  pub fits : c.spent + c.amount < size
  pub running : c.capped ≡ false

-- How the loop ends: below the top all that was to be spent has gone into the levels gained and
-- into what is now spent, which is less than the next level costs; at the top the next level costs
-- no more than this one, and the rest is lost.
pub record Climbed (req : ℕ → ℕ) (c r : Climb) : Type 0 where
  pub gained : ℕ
  pub level : r.level ≡ c.level + gained
  pub here : r.curr ≡ req r.level
  pub dear : r.next ≡ req (r.level + 1)
  pub kept :
      r.capped ≡ false
      → (cost req c.level gained + (r.spent + r.amount) ≡ c.spent + c.amount)
        × (r.spent + r.amount < r.next)
        × (r.curr < r.next)
  pub lost : r.capped ≡ true → (r.spent + r.amount ≡ 0) × (r.next ≤ r.curr)

-- The widths of `uint32_t` and `uint64_t`.
abbrev pub IsWidth : ℕ → Type 0
IsWidth size = (size ≡ 2 ^ 32) ⊎ (size ≡ 2 ^ 64)

pay_lem :
    (size amount next spent : ℕ)
    → IsWidth size
    → spent < next
    → next < 2 ^ 64
    → next ≤ spent + amount
    → spent + amount < size
    → pay size amount next spent + next ≡ spent + amount
unfolding pay
pay_lem size amount next spent (inl e) h k l m =
    subst (λ s. pay s amount next spent + next ≡ spent + amount) (sym e) (omega arith)
pay_lem size amount next spent (inr e) h k l m =
    subst (λ s. pay s amount next spent + next ≡ spent + amount) (sym e) (omega arith)

climb_stay :
    (req : ℕ → ℕ) (size : ℕ) (c : Climb)
    → IsClimbing req size c
    → leb c.next ((c.spent + c.amount) % size) ≡ false
    → Climbed req c c
unfolding cost
climb_stay req size c v f = record {
  gained = 0;
  level = omega arith;
  here = v.here;
  dear = v.dear;
  kept = λ e. (
    omega arith,
    ground (arith, f, mod-eq_of_lt {n = c.spent + c.amount} {m = size} v.fits),
    v.rising,
  );
  lost = λ e. cc (v.running);
}

module _ (req : ℕ → ℕ) (size : ℕ) (c : Climb) (width : IsWidth size) (v : IsClimbing req size c)
    (t : leb c.next ((c.spent + c.amount) % size) ≡ true) where
  affords : c.next ≤ c.spent + c.amount
  affords = ground (arith, t, mod-eq_of_lt {n = c.spent + c.amount} {m = size} v.fits)

  paid : pay size c.amount c.next c.spent + c.next ≡ c.spent + c.amount
  paid = pay_lem size c.amount c.next c.spent width v.short v.narrow affords v.fits

  climb_rise :
      (rise req size c).capped ≡ false
      → req (c.level + 2) < 2 ^ 64
      → IsClimbing req size (rise req size c)
        × ((rise req size c).amount + c.next ≡ c.spent + c.amount)
        × ((rise req size c).spent ≡ 0)
        × ((rise req size c).level ≡ c.level + 1)
  unfolding rise
  climb_rise f b = (
    record {
      short = ground (arith, f, v.short);
      rising = ground (arith, f);
      here = ground (arith, f, v.dear);
      dear = ground (arith, f);
      narrow = ground (arith, f, b);
      fits = ground (arith, f, paid, v.fits);
      running = f;
    },
    ground (arith, f, paid),
    ground (arith, f),
    ground (arith, f),
  )

  -- The top is reached.
  climb_top : (rise req size c).capped ≡ true → Climbed req c (rise req size c)
  unfolding rise cost
  climb_top f = record {
    gained = 1;
    level = ground (arith, f);
    here = ground (arith, f, v.dear);
    dear = ground (arith, f);
    kept = λ e. cc (f, e);
    lost = λ e. ground (arith, f);
  }

-- What comes before and after one level adds up.
climb_after :
    (req : ℕ → ℕ) (c d r : Climb)
    → d.level ≡ c.level + 1
    → d.spent ≡ 0
    → d.amount + c.next ≡ c.spent + c.amount
    → c.next ≡ req (c.level + 1)
    → Climbed req d r
    → Climbed req c r
unfolding cost
climb_after req c d r l z e n h = record {
  gained = suc h.gained;
  level = omega (arith, h.level);
  here = h.here;
  dear = h.dear;
  kept = λ k. (ground (arith, (h.kept k).0, l, z, e, n), (h.kept k).1, (h.kept k).2);
  lost = h.lost;
}

-- With more fuel than there is to spend the loop ends, and it ends as `Climbed` says.
pub climb-Climbed :
    (req : ℕ → ℕ) (size fuel : ℕ) (c : Climb)
    → IsWidth size
    → ((l : ℕ) → req l < 2 ^ 64)
    → IsClimbing req size c
    → c.amount < fuel
    → (r : Climb) × (climb req size fuel c ≡ some r) × Climbed req c r
unfolding climb
climb-Climbed req size zero c width bound v h = absurd (omega arith)
climb-Climbed req size (suc fuel) c width bound v h =
    elim (Bool-cases (leb c.next ((c.spent + c.amount) % size))) [
      | inr f ↦ rw f (c, refl, climb_stay req size c v f)
      | inl t ↦ rw t (elim (Bool-cases (rise req size c).capped) [
        | inl top ↦ rw top (rise req size c, refl, climb_top req size c width v t top)
        | inr on ↦
            let (v', e, z, l) = climb_rise req size c width v t on (bound (c.level + 2)) in
            let (r, done, h') =
              climb-Climbed req size fuel (rise req size c) width bound v'
                (omega (arith, v.short, v.rising)) in
            rw on (r, done, climb_after req c (rise req size c) r l z e v.dear h')
      ])
    ]

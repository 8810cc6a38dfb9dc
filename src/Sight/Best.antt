-- ===== src/Sight/Best.antt =====
-- The best of the three steps is near the line.
use otchronos.Prelude.{
  ℕ, ◌⊎◌, inl, inr, ◌||◌, ◌+◌, ◌-◌, ◌*◌, ◌<◌, ◌≤◌, ◌≡◌, refl, true, false, ltb, arith, max,
}
use otchronos.Sight.{
  Way, SightLine, move_ver, move_hor, move_cross, way, go, ahead, back, add_int, line_mx, line_my,
}
use otchronos.Sight.Rounds.{Between, gap}
use otchronos.Sight.Ties.{dist, base, stepped, side, front, hor_lem, ver_lem, cross_lem, ways}
use otchronos.Sight.Offset.{off, IsNear, Leads, off-side, off-front, off_across, off_here}

-- One of the steps stays near, so that the best of them does.
best_near :
    (p n a b c d v : ℕ)
    → b < a
    → c < d
    → 2 * dist p n ≤ max (a - b) (d - c)
    → v ≤ dist (p + a) (n + b)
    → v ≤ dist (p + c) (n + d)
    → v ≤ dist (p + (a + c)) (n + (b + d))
    → 2 * v ≤ max (a - b) (d - c)
unfolding dist
best_near p n a b c d v h k e f g i = omega arith

best_near_back :
    (p n a b c d v : ℕ)
    → a < b
    → d < c
    → 2 * dist p n ≤ max (b - a) (c - d)
    → v ≤ dist (p + a) (n + b)
    → v ≤ dist (p + c) (n + d)
    → v ≤ dist (p + (a + c)) (n + (b + d))
    → 2 * v ≤ max (b - a) (c - d)
unfolding dist
best_near_back p n a b c d v h k e f g i = omega arith

-- A step of the loop goes where its way leads.
pub go-Leads : (a b x : ℕ) → Between a b x → ¬ (x ≡ b) → Leads (way a b) x (go (way a b) x)
go-Leads a b x h n =
    let away : ¬ (a ≡ b) = omega (arith, h, n) in
    elim (ways a b away) [ inl (e, u) ↦ rw e refl | inr (e, u) ↦ rw e (omega (arith, h, u, n)) ]

-- Which of three steps is the best one.
pub best_hor :
    (hor ver cross : ℕ)
    → (ltb ver hor || ltb cross hor) ≡ false
    → (hor ≤ hor) × (hor ≤ ver) × (hor ≤ cross)
best_hor hor ver cross h = (ground arith, ground (arith, h), ground (arith, h))

pub best_ver :
    (hor ver cross : ℕ)
    → (ltb hor ver || ltb cross ver) ≡ false
    → (ver ≤ hor) × (ver ≤ ver) × (ver ≤ cross)
best_ver hor ver cross h = (ground (arith, h), ground arith, ground (arith, h))

pub best_cross :
    (hor ver cross : ℕ)
    → (ltb ver hor || ltb cross hor) ≡ true
    → (cross ≤ ver) ⊎ ((ltb hor ver || ltb cross ver) ≡ true)
    → (cross ≤ hor) × (cross ≤ ver) × (cross ≤ cross)
best_cross hor ver cross h (inl k) = (ground (arith, h, k), k, ground arith)
best_cross hor ver cross h (inr k) = (ground (arith, h, k), ground (arith, h, k), ground arith)

-- A distance that is not more than that of each step.
abbrev IsBest : SightLine → ℕ → ℕ → ℕ → Type 0
IsBest l x y v = (v ≤ move_hor l x y) × (v ≤ move_ver l x y) × (v ≤ move_cross l x y)

IsBest-near :
    (l : SightLine) (x y v : ℕ) (a b : Way)
    → ((side l a).minus < (side l a).plus) × ((front l b).plus < (front l b).minus)
      ⊎ ((side l a).plus < (side l a).minus) × ((front l b).minus < (front l b).plus)
    → gap (side l a).plus (side l a).minus ≡ gap l.from_y l.to_y
    → gap (front l b).plus (front l b).minus ≡ gap l.from_x l.to_x
    → IsNear l x y
    → v ≤ stepped l x y (side l a)
    → v ≤ stepped l x y (front l b)
    → v ≤ stepped l x y (add_int (side l a) (front l b))
    → 2 * v ≤ max (gap l.from_x l.to_x) (gap l.from_y l.to_y)
IsBest-near l x y v a b (inl (h, k)) d e n f g i =
    let c = base l x y in
    let start = off_here l x y in
    let m =
      best_near c.plus c.minus (side l a).plus (side l a).minus (front l b).plus (front l b).minus v
        h k (omega (arith, n, start, d, e, h, k)) f g i in
    omega (arith, m, d, e, h, k)
IsBest-near l x y v a b (inr (h, k)) d e n f g i =
    let c = base l x y in
    let start = off_here l x y in
    let m =
      best_near_back c.plus c.minus (side l a).plus (side l a).minus (front l b).plus
        (front l b).minus v h k (omega (arith, n, start, d, e, h, k)) f g i in
    omega (arith, m, d, e, h, k)

step-IsNear :
    (l : SightLine) (x y v : ℕ) (a b : Way)
    → line_mx l ≡ a
    → line_my l ≡ b
    → ((side l a).minus < (side l a).plus) × ((front l b).plus < (front l b).minus)
      ⊎ ((side l a).plus < (side l a).minus) × ((front l b).minus < (front l b).plus)
    → gap (side l a).plus (side l a).minus ≡ gap l.from_y l.to_y
    → gap (front l b).plus (front l b).minus ≡ gap l.from_x l.to_x
    → IsNear l x y
    → IsBest l x y v
    → 2 * v ≤ max (gap l.from_x l.to_x) (gap l.from_y l.to_y)
step-IsNear l x y v a b e f h d g n (p, q, r) =
    let hor : move_hor l x y ≡ stepped l x y (side l a) = rw (← e) (hor_lem l x y) in
    let ver : move_ver l x y ≡ stepped l x y (front l b) = rw (← f) (ver_lem l x y) in
    let cross : move_cross l x y ≡ stepped l x y (add_int (side l a) (front l b)) =
      rw (← e, ← f) (cross_lem l x y) in
    IsBest-near l x y v a b h d g n (rw (← hor) p) (rw (← ver) q) (rw (← cross) r)

pub best-IsNear :
    (l : SightLine) (x y v : ℕ)
    → ¬ (l.from_x ≡ l.to_x)
    → ¬ (l.from_y ≡ l.to_y)
    → IsNear l x y
    → IsBest l x y v
    → 2 * v ≤ max (gap l.from_x l.to_x) (gap l.from_y l.to_y)
best-IsNear l x y v h k n b = elim (ways l.from_x l.to_x h) [
  | inl (e, u) ↦ elim (ways l.from_y l.to_y k) [
    | inl (f, w) ↦
        step-IsNear l x y v ahead ahead e f (inl (omega (arith, w), omega (arith, u)))
          (omega (arith, w)) (omega (arith, u)) n b
    | inr (f, w) ↦
        step-IsNear l x y v ahead back e f (inr (omega (arith, w), omega (arith, u)))
          (omega (arith, w)) (omega (arith, u)) n b
  ]
  | inr (e, u) ↦ elim (ways l.from_y l.to_y k) [
    | inl (f, w) ↦
        step-IsNear l x y v back ahead e f (inr (omega (arith, w), omega (arith, u)))
          (omega (arith, w)) (omega (arith, u)) n b
    | inr (f, w) ↦
        step-IsNear l x y v back back e f (inl (omega (arith, w), omega (arith, u)))
          (omega (arith, w)) (omega (arith, u)) n b
  ]
]

-- The distances of the three steps are those of the places to which they lead.
pub off_hor : (l : SightLine) (x y u : ℕ) → Leads (line_mx l) x u → off l u y ≡ move_hor l x y
off_hor l x y u h = rw (hor_lem l x y) (off-side l (line_mx l) x u y h)

pub off_ver : (l : SightLine) (x y v : ℕ) → Leads (line_my l) y v → off l x v ≡ move_ver l x y
off_ver l x y v h = rw (ver_lem l x y) (off-front l (line_my l) x y v h)

pub off_cross :
    (l : SightLine) (x y u v : ℕ)
    → Leads (line_mx l) x u
    → Leads (line_my l) y v
    → off l u v ≡ move_cross l x y
off_cross l x y u v h k = rw (cross_lem l x y) (off_across l (line_mx l) (line_my l) x u y v h k)

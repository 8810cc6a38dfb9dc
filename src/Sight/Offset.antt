-- ===== src/Sight/Offset.antt =====
-- How far places are off a line, and how steps change that.
use otchronos.Prelude.{ℕ, ◌⊎◌, inl, inr, Bool-cases, leb, ◌+◌, ◌-◌, ◌*◌, ◌≤◌, ◌≡◌, arith, max}
use otchronos.Sight.{Way, SightLine, ahead, back, still, add_int}
use otchronos.Sight.Rounds.{gap}
use otchronos.Sight.Ties.{dist, base, stepped, side, front}

-- How far a place is off a line: its distance times the length of the line.
unfoldable pub off : SightLine → ℕ → ℕ → ℕ
off l x y =
    gap (l.to_y * x + l.from_x * y + l.from_y * l.to_x)
      (l.from_y * x + l.to_x * y + l.to_y * l.from_x)

-- Half a tile, measured along the shorter side of the line's rectangle.
abbrev pub IsNear : SightLine → ℕ → ℕ → Type 0
IsNear l x y = 2 * off l x y ≤ max (gap l.from_x l.to_x) (gap l.from_y l.to_y)

-- A difference of products.
product_lem :
    (f b y g : ℕ)
    → (gap ((y + g) * (f + b) + f * y) ((f + b) * y + (y + g) * f) ≡ b * g)
      × (gap (y * (f + b) + f * (y + g)) ((f + b) * (y + g) + y * f) ≡ b * g)
      × (gap ((y + g) * f + (f + b) * y) (f * y + (y + g) * (f + b)) ≡ b * g)
      × (gap (y * f + (f + b) * (y + g)) (f * (y + g) + y * (f + b)) ≡ b * g)
product_lem f b y g = (omega arith, omega arith, omega arith, omega arith)

sum_of : (a b : ℕ) → ((d : ℕ) × (b ≡ a + d)) ⊎ ((d : ℕ) × (a ≡ b + d))
sum_of a b = elim (Bool-cases (leb a b)) [
  | inl h ↦ inl (b - a, ground (arith, h))
  | inr h ↦ inr (a - b, ground (arith, h))
]

gap_sum : (a d : ℕ) → (gap a (a + d) ≡ d) × (gap (a + d) a ≡ d)
gap_sum a d = (omega arith, omega arith)

gap_products : (f t y u : ℕ) → gap (u * t + f * y) (t * y + u * f) ≡ gap f t * gap y u
gap_products f t y u = elim (sum_of f t) [
  | inl (b, e) ↦ elim (sum_of y u) [
    | inl (g, d) ↦ rw (e, d, (gap_sum f b).0, (gap_sum y g).0) (product_lem f b y g).0
    | inr (g, d) ↦ rw (e, d, (gap_sum f b).0, (gap_sum u g).1) (product_lem f b u g).1
  ]
  | inr (b, e) ↦ elim (sum_of y u) [
    | inl (g, d) ↦ rw (e, d, (gap_sum t b).1, (gap_sum y g).0) (product_lem t b y g).2
    | inr (g, d) ↦ rw (e, d, (gap_sum t b).1, (gap_sum u g).1) (product_lem t b u g).3
  ]
]

-- At the end of either side, the distance is a product.
off_at_x : (l : SightLine) (y : ℕ) → off l l.to_x y ≡ gap l.from_x l.to_x * gap y l.to_y
unfolding off
off_at_x l y = omega (arith, gap_products l.from_x l.to_x y l.to_y)

off_at_y : (l : SightLine) (x : ℕ) → off l x l.to_y ≡ gap l.from_y l.to_y * gap x l.to_x
unfolding off
off_at_y l x = omega (arith, gap_products l.from_y l.to_y x l.to_x)

product_mono : (a b c : ℕ) → b ≤ c → a * b ≤ a * c
product_mono a b c h = elim (sum_of b c) [
  | inl (d, e) ↦ rw e (omega arith)
  | inr (d, e) ↦ let same : b ≡ c = omega (arith, h, e) in rw same (omega arith)
]

pub off_mono_x :
    (l : SightLine) (y v : ℕ) → gap v l.to_y ≤ gap y l.to_y → off l l.to_x v ≤ off l l.to_x y
off_mono_x l y v h =
    rw (off_at_x l y, off_at_x l v)
      (product_mono (gap l.from_x l.to_x) (gap v l.to_y) (gap y l.to_y) h)

pub off_mono_y :
    (l : SightLine) (x u : ℕ) → gap u l.to_x ≤ gap x l.to_x → off l u l.to_y ≤ off l x l.to_y
off_mono_y l x u h =
    rw (off_at_y l x, off_at_y l u)
      (product_mono (gap l.from_y l.to_y) (gap u l.to_x) (gap x l.to_x) h)

-- Where a step of a way leads.
abbrev pub Leads : Way → ℕ → ℕ → Type 0
Leads ahead x u = u ≡ x + 1
Leads back x u = x ≡ u + 1
Leads still x u = u ≡ x

pub off-side :
    (l : SightLine) (w : Way) (x u y : ℕ) → Leads w x u → off l u y ≡ stepped l x y (side l w)
unfolding off dist
off-side l ahead x u y h = rw h (omega arith)
off-side l back x u y h = rw h (omega arith)
off-side l still x u y h = rw h (omega arith)

pub off-front :
    (l : SightLine) (w : Way) (x y v : ℕ) → Leads w y v → off l x v ≡ stepped l x y (front l w)
unfolding off dist
off-front l ahead x y v h = rw h (omega arith)
off-front l back x y v h = rw h (omega arith)
off-front l still x y v h = rw h (omega arith)

pub off_across :
    (l : SightLine) (v w : Way) (x p y q : ℕ)
    → Leads v x p
    → Leads w y q
    → off l p q ≡ stepped l x y (add_int (side l v) (front l w))
unfolding off dist
off_across l ahead ahead x p y q h k = rw (h, k) (omega arith)
off_across l ahead back x p y q h k = rw (h, k) (omega arith)
off_across l ahead still x p y q h k = rw (h, k) (omega arith)
off_across l back ahead x p y q h k = rw (h, k) (omega arith)
off_across l back back x p y q h k = rw (h, k) (omega arith)
off_across l back still x p y q h k = rw (h, k) (omega arith)
off_across l still ahead x p y q h k = rw (h, k) (omega arith)
off_across l still back x p y q h k = rw (h, k) (omega arith)
off_across l still still x p y q h k = rw (h, k) (omega arith)

pub off_here : (l : SightLine) (x y : ℕ) → off l x y ≡ dist (base l x y).plus (base l x y).minus
unfolding off dist
off_here l x y = omega arith

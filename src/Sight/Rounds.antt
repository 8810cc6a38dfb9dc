-- ===== src/Sight/Rounds.antt =====
-- A round of the loop along a line: it leaves less of the line to go.
use otchronos.Prelude.{
  ℕ, ◌⊎◌, inl, inr, Bool-cases, suc, ◌+◌, ◌-◌, ◌≤◌, ◌<◌, ◌≡◌, refl, Bool, true, false, ltb, arith,
  ◌==◌, ◌&&◌, ◌||◌, if◌then◌else◌,
}
use otchronos.Sight.{SightLine, go, way, moves_y, moves_x, next_y, next_x}
use otchronos.Sight.Ties.{never_tied}

-- A coordinate between two others, either of which may be the greater one.
abbrev pub Between : ℕ → ℕ → ℕ → Type 0
Between a b x = (a ≤ x) × (x ≤ b) ⊎ (b ≤ x) × (x ≤ a)

abbrev pub gap : ℕ → ℕ → ℕ
gap x b = (x - b) + (b - x)

pub go-Between :
    (a b x : ℕ)
    → Between a b x
    → ¬ (x ≡ b)
    → Between a b (go (way a b) x) × (suc (gap (go (way a b) x) b) ≡ gap x b)
go-Between a b x (inl (h, k)) n = elim (Bool-cases (ltb a b)) [
  | inl e ↦ rw e (inl (omega arith, omega (arith, n)), omega (arith, n))
  | inr e ↦ absurd (ground (arith, h, k, n, e))
]
go-Between a b x (inr (h, k)) n = elim (Bool-cases (ltb a b)) [
  | inl e ↦ absurd (ground (arith, h, k, n, e))
  | inr e ↦
      let f : (a == b) ≡ false = ground (arith, h, k, n, e) in
      rw (e, f) (inr (omega (arith, n), omega arith), omega (arith, n))
]

pub some_move :
    (l : SightLine) (x y : ℕ)
    → Between l.from_x l.to_x x
    → Between l.from_y l.to_y y
    → (x == l.to_x && y == l.to_y) ≡ false
    → (moves_y l x y || moves_x l x y) ≡ true
unfolding moves_y moves_x next_y
some_move l x y h k n = elim (Bool-cases (x == l.to_x)) [
  | inl e ↦ ground (arith, n, e)
  | inr e ↦ elim (Bool-cases (y == l.to_y)) [
    | inl f ↦ ground (arith, n, e, f)
    | inr f ↦
        let away : ¬ (x ≡ l.to_x) = ground (arith, e) in
        let far : ¬ (y ≡ l.to_y) = ground (arith, f) in
        let untied = never_tied l x y (omega (arith, h, away)) (omega (arith, k, far)) in
        ground (arith, e, f, untied)
  ]
]

-- One coordinate of a round.
pub move_Between :
    (a b x : ℕ) (c : Bool)
    → Between a b x
    → (c ≡ true → ¬ (x ≡ b))
    → Between a b (if c then go (way a b) x else x)
      × (gap (if c then go (way a b) x else x) b + (if c then 1 else 0) ≡ gap x b)
move_Between a b x true h n = let (p, q) = go-Between a b x h (n refl) in (p, omega (arith, q))
move_Between a b x false h n = (h, omega arith)

one_moves : (c d : Bool) → (d || c) ≡ true → 0 < (if c then 1 else 0) + (if d then 1 else 0)
one_moves c d h = ground (arith, h)

-- What a round leaves: both coordinates between their ends, and less of the line to go.
abbrev pub Nearer : SightLine → ℕ → ℕ → ℕ → ℕ → Type 0
Nearer l x y p q =
    Between l.from_x l.to_x p
    × Between l.from_y l.to_y q
    × (gap p l.to_x + gap q l.to_y < gap x l.to_x + gap y l.to_y)

pub away_x : (l : SightLine) (x y : ℕ) → moves_x l x y ≡ true → ¬ (x ≡ l.to_x)
unfolding moves_x
away_x l x y h = ground (arith, h)

pub away_y : (l : SightLine) (x y : ℕ) → moves_y l x y ≡ true → ¬ (y ≡ l.to_y)
unfolding moves_y
away_y l x y h = ground (arith, h)

pub round-Nearer :
    (l : SightLine) (x y : ℕ)
    → Between l.from_x l.to_x x
    → Between l.from_y l.to_y y
    → (x == l.to_x && y == l.to_y) ≡ false
    → Nearer l x y (next_x l x y) (next_y l x y)
unfolding next_x next_y
round-Nearer l x y h k n =
    let moved = some_move l x y h k n in
    let (p, u) = move_Between l.from_x l.to_x x (moves_x l x y) h (away_x l x y) in
    let (q, v) = move_Between l.from_y l.to_y y (moves_y l x y) k (away_y l x y) in
    let less = one_moves (moves_x l x y) (moves_y l x y) moved in (p, q, omega (arith, u, v, less))

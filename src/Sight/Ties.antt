-- ===== src/Sight/Ties.antt =====
-- A round of the loop along a line takes a step: the three distances from the line are never tied.
use otchronos.Prelude.{ℕ, not, ◌⊎◌, inl, inr, ◌||◌, ◌+◌, ◌*◌, ◌<◌, ◌≡◌, Bool, false, ltb, arith}
use otchronos.Sight.{
  Diff, Way, abs_int, line_at, SightLine, move_ver, move_hor, move_cross, way, ahead, back, way_int,
  add_int, line_mx, line_my,
}

-- Neither of the steps along the line is taken, for these distances of it.
abbrev pub tie : ℕ → ℕ → ℕ → Bool
tie hor ver cross = not ((ltb ver hor || ltb cross hor) || (ltb hor ver || ltb cross ver))

unfoldable pub dist : ℕ → ℕ → ℕ
dist p n = abs_int (record { plus = p; minus = n })

untied :
    (p n a b c d : ℕ)
    → b < a
    → c < d
    → tie (dist (p + a) (n + b)) (dist (p + c) (n + d)) (dist (p + (a + c)) (n + (b + d))) ≡ false
unfolding dist
untied p n a b c d h k = ground arith

untied_back :
    (p n a b c d : ℕ)
    → a < b
    → d < c
    → tie (dist (p + a) (n + b)) (dist (p + c) (n + d)) (dist (p + (a + c)) (n + (b + d))) ≡ false
unfolding dist
untied_back p n a b c d h k = ground arith

pub ways : (a b : ℕ) → ¬ (a ≡ b) → ((way a b ≡ ahead) × (a < b)) ⊎ ((way a b ≡ back) × (b < a))
ways a b h = ground (arith, h)

-- What is added to the distance from the line by a step to the side, to the front and back.
abbrev pub base : SightLine → ℕ → ℕ → Diff
base l x y = record {
  plus = l.to_y * x + l.from_x * y + (l.from_y * l.to_x + l.to_x * l.to_y);
  minus = l.from_y * x + l.to_x * y + (l.to_y * l.to_x + l.from_x * l.to_y);
}

-- What a step to the side adds, and one to the front.
abbrev pub side : SightLine → Way → Diff
side l w = record {
  plus = l.to_y * (way_int w).plus + l.from_y * (way_int w).minus;
  minus = l.to_y * (way_int w).minus + l.from_y * (way_int w).plus;
}

abbrev pub front : SightLine → Way → Diff
front l w = record {
  plus = l.from_x * (way_int w).plus + l.to_x * (way_int w).minus;
  minus = l.from_x * (way_int w).minus + l.to_x * (way_int w).plus;
}

abbrev pub stepped : SightLine → ℕ → ℕ → Diff → ℕ
stepped l x y d = dist ((base l x y).plus + d.plus) ((base l x y).minus + d.minus)

pub hor_lem : (l : SightLine) (x y : ℕ) → move_hor l x y ≡ stepped l x y (side l (line_mx l))
unfolding move_hor line_at dist
hor_lem l x y = omega arith

pub ver_lem : (l : SightLine) (x y : ℕ) → move_ver l x y ≡ stepped l x y (front l (line_my l))
unfolding move_ver line_at dist
ver_lem l x y = omega arith

pub cross_lem :
    (l : SightLine) (x y : ℕ)
    → move_cross l x y ≡ stepped l x y (add_int (side l (line_mx l)) (front l (line_my l)))
unfolding move_cross line_at dist
cross_lem l x y = omega arith

no_tie :
    (l : SightLine) (x y : ℕ) (v w : Way)
    → ((side l v).minus < (side l v).plus) × ((front l w).plus < (front l w).minus)
      ⊎ ((side l v).plus < (side l v).minus) × ((front l w).minus < (front l w).plus)
    → tie
        (stepped l x y (side l v))
        (stepped l x y (front l w))
        (stepped l x y (add_int (side l v) (front l w)))
      ≡ false
no_tie l x y v w (inl (h, k)) =
    let b = base l x y in
    untied b.plus b.minus (side l v).plus (side l v).minus (front l w).plus (front l w).minus h k
no_tie l x y v w (inr (h, k)) =
    let b = base l x y in
    untied_back b.plus b.minus (side l v).plus (side l v).minus (front l w).plus (front l w).minus h
      k

pub never_tied :
    (l : SightLine) (x y : ℕ)
    → ¬ (l.from_x ≡ l.to_x)
    → ¬ (l.from_y ≡ l.to_y)
    → tie (move_hor l x y) (move_ver l x y) (move_cross l x y) ≡ false
never_tied l x y h k =
    rw (hor_lem l x y, ver_lem l x y, cross_lem l x y)
      (elim (ways l.from_x l.to_x h) [
        | inl (e, u) ↦ elim (ways l.from_y l.to_y k) [
          | inl (f, v) ↦
              rw (e, f) (no_tie l x y ahead ahead (inl (omega (arith, v), omega (arith, u))))
          | inr (f, v) ↦
              rw (e, f) (no_tie l x y ahead back (inr (omega (arith, v), omega (arith, u))))
        ]
        | inr (e, u) ↦ elim (ways l.from_y l.to_y k) [
          | inl (f, v) ↦
              rw (e, f) (no_tie l x y back ahead (inr (omega (arith, v), omega (arith, u))))
          | inr (f, v) ↦
              rw (e, f) (no_tie l x y back back (inl (omega (arith, v), omega (arith, u))))
        ]
      ])

-- ===== src/Sight/Near.antt =====
-- A round of the loop keeps to the line: no tile that is looked at is off it by more than half a tile.
use otchronos.Prelude.{
  ℕ, ◌⊎◌, inl, inr, Bool-cases, ◌||◌, ◌==◌, ◌≤◌, ◌≡◌, refl, subst, Bool, true, false, ltb, arith,
  if◌then◌else◌,
}
use otchronos.Sight.{
  SightLine, move_ver, move_hor, move_cross, next_x, next_y, moves_x, moves_y, go, line_mx, line_my,
}
use otchronos.Sight.Rounds.{Between, gap, go-Between, some_move, move_Between, away_x, away_y}
use otchronos.Sight.Offset.{off, IsNear, off_mono_x, off_mono_y}
use otchronos.Sight.Best.{
  go-Leads, best_hor, best_ver, best_cross, best-IsNear, off_hor, off_ver, off_cross,
}

-- What the tests of a round say.
up_test :
    (l : SightLine) (x y : ℕ)
    → ¬ (x ≡ l.to_x)
    → ¬ (y ≡ l.to_y)
    → moves_y l x y
      ≡ (ltb (move_ver l x y) (move_hor l x y) || ltb (move_cross l x y) (move_hor l x y))
unfolding moves_y
up_test l x y a b = ground (arith, a, b)

aside_test :
    (l : SightLine) (x y : ℕ)
    → ¬ (x ≡ l.to_x)
    → moves_x l x y ≡ (
        next_y l x y == l.to_y
        || (ltb (move_hor l x y) (move_ver l x y) || ltb (move_cross l x y) (move_ver l x y)))
unfolding moves_x
aside_test l x y a = ground (arith, a)

next_y_lem :
    (l : SightLine) (x y : ℕ) (c : Bool)
    → moves_y l x y ≡ c
    → next_y l x y ≡ (if c then go (line_my l) y else y)
unfolding next_y
next_y_lem l x y c e = rw e refl

next_x_lem :
    (l : SightLine) (x y : ℕ) (c : Bool)
    → moves_x l x y ≡ c
    → next_x l x y ≡ (if c then go (line_mx l) x else x)
unfolding next_x
next_x_lem l x y c e = rw e refl

-- Where the loop comes to the last row with a step up, a step to the side brings it nearer.
last_row :
    (l : SightLine) (x u v : ℕ) → v ≡ l.to_y → gap u l.to_x ≤ gap x l.to_x → off l u v ≤ off l x v
last_row l x u v e h = rw e (off_mono_y l x u h)

or_true : (a b : Bool) → (a || b) ≡ true → (a ≡ true) ⊎ (b ≡ true)
or_true a b h = ground (arith, h)

-- A round that moves to the side or to the front only, or across.
diagonal-IsNear :
    (l : SightLine) (x y : ℕ)
    → Between l.from_x l.to_x x
    → Between l.from_y l.to_y y
    → ¬ (x ≡ l.to_x)
    → ¬ (y ≡ l.to_y)
    → IsNear l x y
    → IsNear l (next_x l x y) (next_y l x y)
diagonal-IsNear l x y h k a b n =
    let u = go (line_mx l) x in
    let v = go (line_my l) y in
    let to_u = go-Leads l.from_x l.to_x x h a in
    let to_v = go-Leads l.from_y l.to_y y k b in
    let hor = move_hor l x y in
    let ver = move_ver l x y in
    let cross = move_cross l x y in
    let near = λ (w : ℕ). best-IsNear l x y w (omega (arith, h, a)) (omega (arith, k, b)) n in
    elim (Bool-cases (moves_y l x y)) [
      | inl e ↦ elim (Bool-cases (moves_x l x y)) [
        | inl f ↦
            let up : (ltb ver hor || ltb cross hor) ≡ true = rw (← up_test l x y a b) e in
            let side_on =
              or_true (next_y l x y == l.to_y) (ltb hor ver || ltb cross ver)
                (rw (← aside_test l x y a) f) in
            let at_v = next_y_lem l x y true e in
            let nearer = (go-Between l.from_x l.to_x x h a).1 in
            let better : (cross ≤ ver) ⊎ ((ltb hor ver || ltb cross ver) ≡ true) = elim side_on [
              | inl g ↦
                  let end : v ≡ l.to_y = ground (arith, g, at_v) in
                  let less = last_row l x u v end (omega (arith, nearer)) in
                  inl (omega (arith, less, off_cross l x y u v to_u to_v, off_ver l x y v to_v))
              | inr g ↦ inr g
            ] in
            let good = near cross (best_cross hor ver cross up better) in
            rw (next_x_lem l x y true f, at_v) (omega (arith, good, off_cross l x y u v to_u to_v))
        | inr f ↦
            let tests : (next_y l x y == l.to_y || (ltb hor ver || ltb cross ver)) ≡ false =
              rw (← aside_test l x y a) f in
            let good = near ver (best_ver hor ver cross (ground (arith, tests))) in
            rw (next_x_lem l x y false f, next_y_lem l x y true e)
              (omega (arith, good, off_ver l x y v to_v))
      ]
      | inr e ↦
          let tests : (ltb ver hor || ltb cross hor) ≡ false = rw (← up_test l x y a b) e in
          let moved = some_move l x y h k (ground (arith, a, b)) in
          let f : moves_x l x y ≡ true = ground (arith, moved, e) in
          let good = near hor (best_hor hor ver cross tests) in
          rw (next_x_lem l x y true f, next_y_lem l x y false e)
            (omega (arith, good, off_hor l x y u to_u))
    ]

rests_x : (l : SightLine) (x y : ℕ) → x ≡ l.to_x → moves_x l x y ≡ false
unfolding moves_x
rests_x l x y e = ground (arith, e)

rests_y : (l : SightLine) (x y : ℕ) → y ≡ l.to_y → moves_y l x y ≡ false
unfolding moves_y
rests_y l x y e = ground (arith, e)

-- A round along the last column, or the last row.
straight_x :
    (l : SightLine) (x y u v : ℕ)
    → x ≡ l.to_x
    → u ≡ x
    → gap v l.to_y ≤ gap y l.to_y
    → IsNear l x y
    → IsNear l u v
straight_x l x y u v e f g n =
    let less = off_mono_x l y v g in
    let here : IsNear l l.to_x y = subst (λ (t : ℕ). IsNear l t y) e n in
    rw (f, e) (omega (arith, less, here))

straight_y :
    (l : SightLine) (x y u v : ℕ)
    → y ≡ l.to_y
    → v ≡ y
    → gap u l.to_x ≤ gap x l.to_x
    → IsNear l x y
    → IsNear l u v
straight_y l x y u v e f g n =
    let less = off_mono_y l x u g in
    let here : IsNear l x l.to_y = subst (λ (t : ℕ). IsNear l x t) e n in
    rw (f, e) (omega (arith, less, here))

pub round-IsNear :
    (l : SightLine) (x y : ℕ)
    → Between l.from_x l.to_x x
    → Between l.from_y l.to_y y
    → IsNear l x y
    → IsNear l (next_x l x y) (next_y l x y)
round-IsNear l x y h k n =
    let p = next_x_lem l x y (moves_x l x y) refl in
    let q = next_y_lem l x y (moves_y l x y) refl in
    let c = (move_Between l.from_x l.to_x x (moves_x l x y) h (away_x l x y)).1 in
    let d = (move_Between l.from_y l.to_y y (moves_y l x y) k (away_y l x y)).1 in
    elim (Bool-cases (x == l.to_x)) [
      | inl e ↦
          let at : x ≡ l.to_x = ground (arith, e) in
          let still_x : moves_x l x y ≡ false = rests_x l x y at in
          straight_x l x y (next_x l x y) (next_y l x y) at (next_x_lem l x y false still_x)
            (rw q (omega (arith, d))) n
      | inr e ↦ elim (Bool-cases (y == l.to_y)) [
        | inl f ↦
            let at : y ≡ l.to_y = ground (arith, f) in
            let still_y : moves_y l x y ≡ false = rests_y l x y at in
            straight_y l x y (next_x l x y) (next_y l x y) at (next_y_lem l x y false still_y)
              (rw p (omega (arith, c))) n
        | inr f ↦ diagonal-IsNear l x y h k (ground (arith, e)) (ground (arith, f)) n
      ]
    ]

-- ===== src/Sight/Clear.antt =====
-- What a line of sight says, from floor to floor.
use otchronos.Prelude.{
  ℕ, List, not, ◌⊎◌, inl, inr, Bool-cases, zero, suc, ◌+◌, ◌-◌, ◌≤◌, ◌<◌, ◌≡◌, refl, Option, some,
  Bool, true, false, ltb, arith, ◌==◌, ◌&&◌,
}
use otchronos.Sight.{
  Env, SightPlace, line_of, either, go_down, follow, descend, check_down, check_sight_line,
  is_sight_clear, abs_int, line_a, line_b,
}
use otchronos.Sight.Offset.{off}
use otchronos.Sight.Ends.{IsOnLine, Traced, Seen, follow_lem}

-- No floor above the end has things on it.
abbrev pub IsFree : Env → SightPlace → SightPlace → Type 0
IsFree env a b = (k : ℕ) → k < b.z - a.z → env.has_things b.x b.y (a.z + k) ≡ false

-- A floor above the end has things on it.
abbrev pub IsCovered : Env → SightPlace → SightPlace → Type 0
IsCovered env a b = (k : ℕ) × (k < b.z - a.z) × (env.has_things b.x b.y (a.z + k) ≡ true)

-- An answer, with the tiles that were looked at along the line: it is true where they lead to the end and the floors
-- above that are free, and false where one of them blocks projectiles, or where they lead to the end
-- and a floor above that is covered.
abbrev pub Verdict : Env → SightPlace → SightPlace → Option Bool → Type 0
Verdict env a b r =
    (c : Bool) × (r ≡ some c)
    × (ps : List (ℕ × ℕ)) × (Traced env (line_of a b) a.z true a.x a.y ps
          × ((c ≡ true) × IsFree env a b ⊎ (c ≡ false) × IsCovered env a b)
        ⊎ (c ≡ false) × Traced env (line_of a b) a.z false a.x a.y ps)

add_none : (z : ℕ) → z + 0 ≡ z
add_none z = omega arith

add_next : (z k : ℕ) → z + suc k ≡ suc z + k
add_next z k = omega arith

free_below :
    (env : Env) (n x y z : ℕ)
    → env.has_things x y z ≡ false
    → ((k : ℕ) → k < n → env.has_things x y (suc z + k) ≡ false)
    → (k : ℕ) → k < suc n
    → env.has_things x y (z + k) ≡ false
free_below env n x y z b h zero l = rw (add_none z) b
free_below env n x y z b h (suc k) l = rw (add_next z k) (h k (omega (arith, l)))

descend_lem :
    (env : Env) (n x y z : ℕ)
    → (descend env n x y z ≡ true) × ((k : ℕ) → k < n → env.has_things x y (z + k) ≡ false)
      ⊎ (descend env n x y z ≡ false) × ((k : ℕ) × (k < n) × (env.has_things x y (z + k) ≡ true))
unfolding descend
descend_lem env zero x y z = inl (refl, λ k h. absurd (omega (arith, h)))
descend_lem env (suc n) x y z = elim (Bool-cases (env.has_things x y z)) [
  | inl b ↦ inr (rw b refl, (0, omega arith, rw (add_none z) b))
  | inr b ↦ rw b (elim (descend_lem env n x y (suc z)) [
    | inl (e, h) ↦ inl (e, free_below env n x y z b h)
    | inr (e, (k, l, h)) ↦ inr (e, (suc k, omega (arith, l), rw (add_next z k) h))
  ])
]

go_down_lem :
    (env : Env) (a b : SightPlace) (r : Option Bool)
    → Seen env (line_of a b) a.z a.x a.y r
    → Verdict env a b (go_down env a b r)
unfolding go_down
go_down_lem env a b r (false, e, ps, h) = (false, rw e refl, ps, inr (refl, h))
go_down_lem env a b r (true, e, ps, h) = rw e (elim (descend_lem env (b.z - a.z) b.x b.y a.z) [
  | inl (d, f) ↦ (true, rw d refl, ps, inl (h, inl (refl, f)))
  | inr (d, f) ↦ (false, rw d refl, ps, inl (h, inr (refl, f)))
])

start-IsOnLine : (a b : SightPlace) → IsOnLine (line_of a b) a.x a.y
unfolding off
start-IsOnLine a b = record { in_x = omega arith; in_y = omega arith; near = omega arith }

check_down_lem : (env : Env) (a b : SightPlace) → Verdict env a b (check_down env a b)
unfolding check_down
check_down_lem env a b =
    let l = line_of a b in
    let steps = abs_int (line_b l) + abs_int (line_a l) in
    go_down_lem env a b (follow env l a.z steps a.x a.y)
      (follow_lem env l a.z steps a.x a.y (start-IsOnLine a b) (omega arith))

-- `Map::checkSightLine`, between two different places, of which the first one is not below the other one, looks at
-- tiles one beside the other, each nearer to the end, and within half a tile of the line between
-- the places. It ends, and says that the view is clear where none of them blocks projectiles, the last one
-- is at the end of the line, and no floor above the end has things on it; that it is not where the
-- last one is the only one to block projectiles, or where the line is clear and a floor above the end has
-- things on it.
pub check_sight_line_lem :
    (env : Env) (a b : SightPlace)
    → a.z ≤ b.z
    → (a.x == b.x && a.y == b.y && a.z == b.z) ≡ false
    → Verdict env a b (check_sight_line env a b)
unfolding check_sight_line
check_sight_line_lem env a b h k =
    let up : ltb b.z a.z ≡ false = ground (arith, h) in rw (k, up) (check_down_lem env a b)

down_ends : (env : Env) (a b : SightPlace) → (c : Bool) × (check_down env a b ≡ some c)
down_ends env a b = let (c, e, ps, h) = check_down_lem env a b in (c, e)

line_ends : (env : Env) (a b : SightPlace) → (c : Bool) × (check_sight_line env a b ≡ some c)
unfolding check_sight_line
line_ends env a b = elim (Bool-cases (a.x == b.x && a.y == b.y && a.z == b.z)) [
  | inl e ↦ rw e (true, refl)
  | inr e ↦ elim (Bool-cases (ltb b.z a.z)) [
    | inl f ↦ rw (e, f) (down_ends env b a)
    | inr f ↦ rw (e, f) (down_ends env a b)
  ]
]

either_comm : (c d : Bool) → either (some d) (some c) ≡ either (some c) (some d)
either_comm true true = refl
either_comm true false = refl
either_comm false true = refl
either_comm false false = refl

either_ends : (c d : Bool) → (r : Bool) × (either (some c) (some d) ≡ some r)
either_ends true d = (true, refl)
either_ends false d = (d, refl)

-- `Map::isSightClear` ends, and says the same in both directions.
pub is_sight_clear_ends :
    (env : Env) (a b : SightPlace) (floor_check : Bool)
    → (c : Bool) × (is_sight_clear env a b floor_check ≡ some c)
      × (is_sight_clear env b a floor_check ≡ some c)
unfolding is_sight_clear
is_sight_clear_ends env a b floor_check =
    let (c, e) = line_ends env a b in
    let (d, f) = line_ends env b a in
    let (r, g) = either_ends c d in
    let same : (b.z == a.z) ≡ (a.z == b.z) = ground arith in
    rw (same, e, f, either_comm c d, g)
      (elim (Bool-cases (floor_check && not (a.z == b.z))) [
        | inl h ↦ rw h (false, refl, refl)
        | inr h ↦ rw h (r, refl, refl)
      ])

-- ===== src/Sight/Ends.antt =====
-- What the loop along a line looks at, and that it comes to its end.
use otchronos.Prelude.{
  ℕ, ◌⊎◌, inl, inr, List, [], ◌∷◌, Bool-cases, zero, suc, ◌+◌, ◌≤◌, ◌<◌, ◌≡◌, refl, Option, some,
  Bool, true, false, arith, ◌==◌, ◌&&◌, if◌then◌else◌,
}
use otchronos.Sight.{SightLine, go, way, moves_y, moves_x, next_y, next_x, Env, follow}
use otchronos.Sight.Rounds.{Between, gap, round-Nearer}
use otchronos.Sight.Offset.{IsNear}
use otchronos.Sight.Near.{round-IsNear}

-- A tile on a line: in the rectangle that it spans, and off the line by half a tile at most.
pub record IsOnLine (l : SightLine) (x y : ℕ) : Type 0 where
  pub in_x : Between l.from_x l.to_x x
  pub in_y : Between l.from_y l.to_y y
  pub near : IsNear l x y

-- A step to a tile beside a tile, straight or across, that comes nearer to the end.
pub record IsStep (l : SightLine) (x y u v : ℕ) : Type 0 where
  pub beside_x : gap x u ≤ 1
  pub beside_y : gap y v ≤ 1
  pub nearer : gap u l.to_x + gap v l.to_y < gap x l.to_x + gap y l.to_y

-- The tiles that are looked at from a place on, with the answer: each is on the line and a step from the one before;
-- none blocks projectiles but the last one where the answer is false, and the last one is the end
-- of the line where it is true.
unfoldable pub Traced : Env → SightLine → ℕ → Bool → ℕ → ℕ → List (ℕ × ℕ) → Type 0
Traced env l z c x y [] = (c ≡ true) × (x ≡ l.to_x) × (y ≡ l.to_y)
Traced env l z c x y ((u, v) ∷ ps) =
    IsStep l x y u v
    × IsOnLine l u v
    × ((env.blocks_projectile u v z ≡ false) × Traced env l z c u v ps
        ⊎ (env.blocks_projectile u v z ≡ true) × (c ≡ false) × (ps ≡ []))

-- An answer with its tiles.
abbrev pub Seen : Env → SightLine → ℕ → ℕ → ℕ → Option Bool → Type 0
Seen env l z x y r = (c : Bool) × (r ≡ some c) × (ps : List (ℕ × ℕ)) × Traced env l z c x y ps

beside : (a b x : ℕ) (c : Bool) → gap x (if c then go (way a b) x else x) ≤ 1
beside a b x c = ground arith

round-IsStep :
    (l : SightLine) (x y : ℕ)
    → Between l.from_x l.to_x x
    → Between l.from_y l.to_y y
    → (x == l.to_x && y == l.to_y) ≡ false
    → IsStep l x y (next_x l x y) (next_y l x y)
unfolding next_x next_y
round-IsStep l x y h k n =
    let (p, q, less) = round-Nearer l x y h k n in
    record {
      beside_x = beside l.from_x l.to_x x (moves_x l x y);
      beside_y = beside l.from_y l.to_y y (moves_y l x y);
      nearer = less;
    }

round-IsOnLine :
    (l : SightLine) (x y : ℕ)
    → IsOnLine l x y
    → (x == l.to_x && y == l.to_y) ≡ false
    → IsOnLine l (next_x l x y) (next_y l x y)
round-IsOnLine l x y h n =
    let (p, q, less) = round-Nearer l x y h.in_x h.in_y n in
    record { in_x = p; in_y = q; near = round-IsNear l x y h.in_x h.in_y h.near }

pub follow_lem :
    (env : Env) (l : SightLine) (z n x y : ℕ)
    → IsOnLine l x y
    → gap x l.to_x + gap y l.to_y ≤ n
    → Seen env l z x y (follow env l z n x y)
unfolding follow Traced
follow_lem env l z zero x y h e =
    let at_x : x ≡ l.to_x = omega arith in
    let at_y : y ≡ l.to_y = omega arith in
    (true, ground (arith, at_x, at_y), [], (refl, at_x, at_y))
follow_lem env l z (suc n) x y h e = elim (Bool-cases (x == l.to_x && y == l.to_y)) [
  | inl a ↦ (true, ground (arith, a), [], (refl, ground (arith, a), ground (arith, a)))
  | inr a ↦
      let step = round-IsStep l x y h.in_x h.in_y a in
      let on = round-IsOnLine l x y h a in
      let u = next_x l x y in
      let v = next_y l x y in
      elim (Bool-cases (env.blocks_projectile u v z)) [
        | inl b ↦ (false, rw (a, b) refl, (u, v) ∷ [], (step, on, inr (b, refl, refl)))
        | inr b ↦
            let (c, ends, ps, path) = follow_lem env l z n u v on (omega (arith, step.nearer, e)) in
            (c, rw (a, b) ends, (u, v) ∷ ps, (step, on, inl (b, path)))
      ]
]

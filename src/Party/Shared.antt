-- ===== src/Party/Shared.antt =====
-- Who may share experience: `Party::canUseSharedExperience` and what is built on it.
use otchronos.Prelude.{
  ℕ, ◌*◌, ◌≤◌, ◌≡◌, ◌≢◌, List, [], ◌∷◌, true, ltb, if◌then◌else◌, arith, count, count-cons,
  count-nil,
}
use otchronos.Party.State.{Party, World, Env}
use otchronos.Party.{
  highest_level, min_level, can_use_shared_experience, all_can_use, can_enable_shared_experience,
}

-- The loop's result is at least where it started, and at least each member's level.
highest_level-ge : (w : World) (h : ℕ) (ms : List ℕ) → h ≤ highest_level w h ms
unfolding highest_level
highest_level-ge w h [] = omega arith
highest_level-ge w h (m ∷ ms) =
    ground
      (arith, highest_level-ge w (if ltb h (w.players m).level then (w.players m).level else h) ms)

highest_level-member :
    (w : World) (h m : ℕ) (ms : List ℕ)
    → count m ms ≢ 0
    → (w.players m).level ≤ highest_level w h ms
unfolding highest_level
highest_level-member w h m [] n = absurd (n (count-nil m))
highest_level-member w h m (x ∷ ms) n =
    let l = (w.players x).level in
    let h' = if ltb h l then l else h in
    ground (arith, n, count-cons m x ms, highest_level-ge w h' ms, highest_level-member w h' m ms)

-- Whoever may share has at least two thirds of the level of the leader and of each member.
pub can_use-level :
    (env : Env) (w : World) (c : Party) (p m : ℕ)
    → can_use_shared_experience env w c p ≡ true
    → count m (c.leader ∷ c.member_list) ≢ 0
    → (w.players m).level * 2 ≤ (w.players p).level * 3
unfolding can_use_shared_experience min_level
can_use-level env w c p m u n =
    let h = (w.players c.leader).level in
    ground (
      arith,
      u,
      n,
      count-cons m c.leader c.member_list,
      highest_level-ge w h c.member_list,
      highest_level-member w h m c.member_list,
    )

all_can_use-each :
    (env : Env) (w : World) (c : Party) (m : ℕ) (ms : List ℕ)
    → all_can_use env w c ms ≡ true
    → count m ms ≢ 0
    → can_use_shared_experience env w c m ≡ true
unfolding all_can_use
all_can_use-each env w c m [] a n = absurd (n (count-nil m))
all_can_use-each env w c m (x ∷ ms) a n =
    ground (arith, a, n, count-cons m x ms, all_can_use-each env w c m ms)

-- Shared experience can be enabled only if the leader and each member may share, and so only if no
-- two of them are more than a third of the higher level apart.
pub can_enable-levels :
    (env : Env) (w : World) (c : Party) (p m : ℕ)
    → can_enable_shared_experience env w c ≡ true
    → count p (c.leader ∷ c.member_list) ≢ 0
    → count m (c.leader ∷ c.member_list) ≢ 0
    → (can_use_shared_experience env w c p ≡ true)
      × ((w.players m).level * 2 ≤ (w.players p).level * 3)
unfolding can_enable_shared_experience all_can_use
can_enable-levels env w c p m a n k =
    let may = all_can_use-each env w c p (c.leader ∷ c.member_list) a n in
    (may, can_use-level env w c p m may k)

-- ===== src/Player/VitalsLaws.antt =====
-- The bounds that the small states of a player keep.
use otchronos.Prelude.{
  ℕ, zero, suc, ◌+◌, ◌-◌, ◌*◌, ◌^◌, ◌≤◌, ◌<◌, ◌≡◌, refl, min, Bool, true, ◌==◌, ◌&&◌, not,
  if◌then◌else◌, leb, List, [], ◌∷◌, length, elem, erase, count, arith, Bool-cases, inl, inr,
  count-cons, count-erase, elem-count,
}
use otchronos.Player.Vitals.{
  min16, regenerate_stamina, gain, loss, change_soul, Skull, Frags, skull_none, skull_red,
  skull_black, FragConfig, too_many, add_unjustified_dead, Talk, add_message_buffer,
  remove_message_buffer, Vip, add_vip, remove_vip, edit_vip,
}

-- `regenerateStamina`, after less than 68 days away and with 42 hours of stamina at most: none is
-- lost, and there are 42 hours at most.
pub regenerate_stamina-bounds :
    (b : Bool) (time stamina : ℕ)
    → time < 180 * 2 ^ 15
    → stamina ≤ 2520
    → (stamina ≤ regenerate_stamina b time stamina) × (regenerate_stamina b time stamina ≤ 2520)
unfolding regenerate_stamina min16
regenerate_stamina-bounds b time stamina h k = (ground arith, ground arith)

-- `changeSoul`, where all numbers are less than `2 ^ 31`: a gain leads to the maximum at most, a
-- loss to 0 at least.
pub change_soul_lem :
    (soul_max n soul : ℕ)
    → soul_max < 2 ^ 31
    → n < 2 ^ 31
    → soul < 2 ^ 31
    → (change_soul soul_max (gain n) soul ≡ min (soul + n) soul_max)
      × (change_soul soul_max (loss n) soul ≡ soul - n)
unfolding change_soul
change_soul_lem soul_max n soul h k l = (ground arith, ground arith)

-- The buffer's count is at most two above the maximum.
unfoldable pub IsBuffered : ℕ → Talk → Type 0
IsBuffered max_buffer t = t.message_buffer_count ≤ max_buffer + 2

-- `addMessageBuffer` and `removeMessageBuffer` keep the buffer's count at most two above the
-- maximum.
pub message_buffer-IsBuffered :
    (max_buffer : ℕ) (u : Bool) (t : Talk)
    → IsBuffered max_buffer t
    → IsBuffered max_buffer (add_message_buffer max_buffer u t)
      × IsBuffered max_buffer (remove_message_buffer max_buffer u t).0
unfolding IsBuffered add_message_buffer remove_message_buffer
message_buffer-IsBuffered m u t h = (ground arith, ground arith)

-- One kill after another, without a pause in which the time of a kill runs out.
unfoldable pub kills : FragConfig → ℕ → Frags
kills c zero = record { skull = skull_none; skull_ticks = 0 }
kills c (suc n) = add_unjustified_dead c (kills c n)

-- The skull for `n` kills by the numbers alone.
unfoldable pub expected_skull : FragConfig → ℕ → Skull
expected_skull c n =
    if not (c.kills_to_black == 0) && leb c.kills_to_black n
    then skull_black
    else if not (c.kills_to_red == 0) && leb c.kills_to_red n
    then skull_red
    else skull_none

too_many_lem : (k f n : ℕ) → 1 ≤ f → too_many k f (n * f) ≡ not (k == 0) && leb k n
unfolding too_many
too_many_lem zero f n h = refl
too_many_lem (suc k) f n h = elim (Bool-cases (leb (suc k) n)) [
  | inl y ↦ let below : k < n = ground (arith, y) in grind (arith, below, y)
  | inr m ↦ let above : n ≤ k = ground (arith, m) in grind (arith, above, m)
]

-- `addUnjustifiedDead`, called `n` times for a player without a skull, where a kill counts for some
-- time: the black skull comes with KILLS_TO_BLACK kills and the red one with KILLS_TO_RED, each
-- unless its number is 0, and black has precedence.
pub kills_lem :
    (c : FragConfig) (n : ℕ)
    → 1 ≤ c.frag_time
    → ((kills c n).skull ≡ expected_skull c n) × ((kills c n).skull_ticks ≡ n * c.frag_time)
unfolding kills expected_skull add_unjustified_dead
kills_lem c zero h = (ground arith, omega arith)
kills_lem c (suc n) h =
    let (s, t) = kills_lem c n h in
    let ticks : (kills c n).skull_ticks + c.frag_time ≡ suc n * c.frag_time = grind (arith, t) in
    let black = too_many_lem c.kills_to_black c.frag_time (suc n) h in
    let red = too_many_lem c.kills_to_red c.frag_time (suc n) h in
    (ground (arith, ticks, black, red, s), ticks)

-- A set, without the player's own number, of 200 at most.
pub record IsVipList (v : Vip) : Type 0 where
  pub once : (a : ℕ) → count a v.vip_list ≤ 1
  pub others : count v.guid v.vip_list ≡ 0
  pub bounded : length v.vip_list ≤ 200

length-erase : (a : ℕ) (xs : List ℕ) → length (erase a xs) ≤ length xs
unfolding erase
length-erase a [] = omega arith
length-erase a (x ∷ xs) = ground (arith, length-erase a xs)

-- `addVIP` and `removeVIP` keep the list a set of 200 at most without the player's own number.
pub vip-IsVipList :
    (other : ℕ) (v : Vip)
    → IsVipList v
    → IsVipList (add_vip other v).0 × IsVipList (remove_vip other v).0
unfolding add_vip remove_vip
vip-IsVipList other v h = (
  record {
    once = λ a.
        ground
          (arith, h.once a, h.others, elem-count other v.vip_list, count-cons a other v.vip_list);
    others = ground (arith, h.others, count-cons v.guid other v.vip_list);
    bounded = ground (arith, h.bounded);
  },
  record {
    once = λ a. ground (arith, h.once a, count-erase a other v.vip_list);
    others = ground (arith, h.others, count-erase v.guid other v.vip_list);
    bounded = ground (arith, h.bounded, length-erase other v.vip_list);
  },
)

-- Where `addVIP` succeeds the player is found in the list, and `removeVIP` leads back.
pub remove_vip-add_vip :
    (other : ℕ) (v : Vip)
    → (add_vip other v).1 ≡ true
    → (edit_vip other (add_vip other v).0 ≡ true)
      × (remove_vip other (add_vip other v).0 ≡ (v, true))
unfolding add_vip remove_vip edit_vip elem erase
remove_vip-add_vip other v h = ground (arith, h)

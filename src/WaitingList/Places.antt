-- ===== src/WaitingList/Places.antt =====
-- How many entries clients have in the two lists, and how the operations change that.
use otchronos.Prelude.{
  ℕ, ◌<◌, ◌+◌, ◌≤◌, ◌≡◌, refl, none, some, ◌==◌, List, [], ◌∷◌, ◌++◌, length, from_bool, arith,
  Bool-cases, Option-cases, ◌⊎◌, inl, inr,
}
use otchronos.WaitingList.{
  Wait, WaitLists, Client, find_slot, find_client, cleanup_list, erase_client, put_timeout, line_up,
  cleanup, get_client_slot, get_timeout,
}

-- How many entries a client has.
unfoldable pub standing : ℕ → List Wait → ℕ
standing g [] = 0
standing g (x ∷ xs) = from_bool (x.player_guid == g) + standing g xs

-- How many in both lists.
unfoldable pub places : ℕ → WaitLists → ℕ
places g w = standing g w.priority_wait_list + standing g w.wait_list

standing-cleanup_list :
    (g now : ℕ) (xs : List Wait) → standing g (cleanup_list now xs) ≤ standing g xs
unfolding standing cleanup_list
standing-cleanup_list g now [] = omega arith
standing-cleanup_list g now (x ∷ xs) = ground (arith, standing-cleanup_list g now xs)

standing-erase_client : (g c : ℕ) (xs : List Wait) → standing g (erase_client c xs) ≤ standing g xs
unfolding standing erase_client
standing-erase_client g c [] = omega arith
standing-erase_client g c (x ∷ xs) = ground (arith, standing-erase_client g c xs)

standing-put_timeout :
    (g c t : ℕ) (xs : List Wait) → standing g (put_timeout c t xs) ≡ standing g xs
unfolding standing put_timeout
standing-put_timeout g c t [] = refl
standing-put_timeout g c t (x ∷ xs) = ground (arith, standing-put_timeout g c t xs)

standing-append :
    (g : ℕ) (xs : List Wait) (x : Wait)
    → standing g (xs ++ x ∷ []) ≡ standing g xs + from_bool (x.player_guid == g)
unfolding standing
standing-append g [] x = omega arith
standing-append g (y ∷ xs) x = omega (arith, standing-append g xs x)

-- A slot is found where there is an entry, and is not 0.
pub find_slot-none : (g k : ℕ) (xs : List Wait) → find_slot g k xs ≡ none → standing g xs ≡ 0
unfolding find_slot standing
find_slot-none g k [] h = refl
find_slot-none g k (x ∷ xs) h = elim (Bool-cases (x.player_guid == g)) [
  | inl y ↦ ground (arith, h, y)
  | inr n ↦ ground (arith, n, find_slot-none g (k + 1) xs (ground (arith, h, n)))
]

pub find_slot-some :
    (g k s : ℕ) (xs : List Wait) → find_slot g k xs ≡ some s → (1 ≤ standing g xs) × (k ≤ s)
unfolding find_slot standing
find_slot-some g k s [] h = ground (arith, h)
find_slot-some g k s (x ∷ xs) h = elim (Bool-cases (x.player_guid == g)) [
  | inl y ↦ (ground (arith, h, y), ground (arith, h, y))
  | inr n ↦
      let (a, b) = find_slot-some g (k + 1) s xs (ground (arith, h, n)) in
      (ground (arith, n, a), omega (arith, b))
]

-- What `findClient` answers, by the entries.
find_client-places :
    (g : ℕ) (w : WaitLists)
    → ((find_client g w ≡ none) × (places g w ≡ 0))
      ⊎ ((slot : ℕ) × (find_client g w ≡ some slot) × (1 ≤ places g w) × (1 ≤ slot))
unfolding find_client places
find_client-places g w = elim (Option-cases (find_slot g 1 w.priority_wait_list)) [
  | inr (s, e) ↦
      let (a, b) = find_slot-some g 1 s w.priority_wait_list e in
      inr (s, rw (find_client, e) refl, omega (arith, a), b)
  | inl e ↦
      let z = find_slot-none g 1 w.priority_wait_list e in
      elim (Option-cases (find_slot g (1 + length w.priority_wait_list) w.wait_list)) [
        | inr (s, d) ↦
            let (a, b) = find_slot-some g (1 + length w.priority_wait_list) s w.wait_list d in
            inr (s, rw (find_client, e, d) refl, omega (arith, a), omega (arith, b))
        | inl d ↦
            let y = find_slot-none g (1 + length w.priority_wait_list) w.wait_list d in
            inl (rw (find_client, e, d) refl, omega (arith, z, y))
      ]
]

pub places-cleanup : (g now : ℕ) (w : WaitLists) → places g (cleanup now w) ≤ places g w
unfolding places cleanup
places-cleanup g now w = omega (
  arith,
  standing-cleanup_list g now w.priority_wait_list,
  standing-cleanup_list g now w.wait_list,
)

pub places-line_up :
    (g now : ℕ) (c : Client) (w : WaitLists)
    → places g (line_up now c w) ≡ places g w + from_bool (c.guid == g)
unfolding places line_up
places-line_up g now c w = elim (Bool-cases c.is_premium) [
  | inl y ↦ rw y (
      let a = standing-append g w.priority_wait_list (record {
        timeout = get_timeout now (length w.priority_wait_list + 1);
        player_guid = c.guid;
      }) in
      omega (arith, a))
  | inr n ↦ rw n (
      let a = standing-append g w.wait_list (record {
        timeout = get_timeout now (length w.priority_wait_list + length w.wait_list + 1);
        player_guid = c.guid;
      }) in
      omega (arith, a))
]

pub get_client_slot-places : (g : ℕ) (w : WaitLists) → 1 ≤ places g w → 1 ≤ get_client_slot g w
unfolding get_client_slot
get_client_slot-places g w h = elim (find_client-places g w) [
  | inl (e, z) ↦ absurd (omega (arith, h, z))
  | inr (slot, e, p, k) ↦ rw (get_client_slot, e) k
]

pub places-put_first :
    (g c t : ℕ) (w : WaitLists)
    → places g (record w { priority_wait_list = put_timeout c t w.priority_wait_list }) ≡ places g w
unfolding places
places-put_first g c t w = omega (arith, standing-put_timeout g c t w.priority_wait_list)

pub places-put_second :
    (g c t : ℕ) (w : WaitLists)
    → places g (record w { wait_list = put_timeout c t w.wait_list }) ≡ places g w
unfolding places
places-put_second g c t w = omega (arith, standing-put_timeout g c t w.wait_list)

pub places-erase :
    (g c : ℕ) (w : WaitLists)
    → places g (record w { wait_list = erase_client c w.wait_list }) ≤ places g w
unfolding places
places-erase g c w = omega (arith, standing-erase_client g c w.wait_list)

pub in_first : (g : ℕ) (w : WaitLists) → 1 ≤ standing g w.priority_wait_list → 1 ≤ places g w
unfolding places
in_first g w h = omega (arith, h)

pub in_second : (g : ℕ) (w : WaitLists) → 1 ≤ standing g w.wait_list → 1 ≤ places g w
unfolding places
in_second g w h = omega (arith, h)

pub in_none :
    (g : ℕ) (w : WaitLists)
    → standing g w.priority_wait_list ≡ 0
    → standing g w.wait_list ≡ 0
    → places g w ≡ 0
unfolding places
in_none g w h k = omega (arith, h, k)

pub find_slot_bound : (g k s : ℕ) (xs : List Wait) → find_slot g k xs ≡ some s → s < k + length xs
unfolding find_slot
find_slot_bound g k s [] h = ground (arith, h)
find_slot_bound g k s (x ∷ xs) h = elim (Bool-cases (x.player_guid == g)) [
  | inl y ↦ ground (arith, h, y)
  | inr n ↦ omega (arith, find_slot_bound g (k + 1) s xs (ground (arith, h, n)))
]

-- ===== src/WaitingList/Laws.antt =====
-- What `clientLogin` answers: no client stands in line twice, and one who is refused stands in line.
use otchronos.Prelude.{
  ℕ, not, Option, ◌<◌, leb, ◌+◌, ◌≤◌, ◌≡◌, refl, none, some, Bool, true, false, ◌==◌, ◌||◌, ◌&&◌,
  ltb, if◌then◌else◌, length, is_empty, arith, Bool-cases, Option-cases, ◌⊎◌, inl, inr,
}
use otchronos.WaitingList.{
  WaitLists, Client, find_slot, find_client, erase_client, put_timeout, found, line_up, cleanup,
  queue_up, client_login, get_client_slot, get_timeout,
}
use otchronos.WaitingList.Places.{
  places, find_slot-none, find_slot-some, places-cleanup, places-line_up, get_client_slot-places,
  places-put_first, places-put_second, places-erase, in_first, in_second, in_none, find_slot_bound,
}

-- Whether a client stands in the list of premium players, at a slot at which it may come in.
unfoldable pub is_due : ℕ → ℕ → Client → WaitLists → Bool
is_due max_players online c w = elim (find_slot c.guid 1 w.priority_wait_list) [
  | none ↦ false
  | some slot ↦ leb (online + slot) max_players
]

-- What is claimed of the answer to a client: where it is due in the list of premium players the behaviour is
-- undefined; otherwise no client has two entries, and this one is let in or has a slot.
abbrev pub Kept : ℕ → Bool → Option (WaitLists × Bool) → Type 0
Kept guid due r =
    (due ≡ true) × (r ≡ none)
    ⊎ (due ≡ false)
      × (q : WaitLists × Bool) × (r ≡ some q)
      × ((g : ℕ) → places g q.0 ≤ 1)
      × ((q.1 ≡ true) ⊎ (1 ≤ get_client_slot guid q.0))

-- An entry in the list of premium players.
found_first :
    (now m o slot : ℕ) (c : Client) (w : WaitLists)
    → slot ≤ length w.priority_wait_list
    → 1 ≤ places c.guid w
    → ((g : ℕ) → places g w ≤ 1)
    → Kept c.guid (leb (o + slot) m) (found now m o c w slot)
unfolding found
found_first now m o slot c w b p h =
    let t = get_timeout now slot in
    let w' = record w { priority_wait_list = put_timeout c.guid t w.priority_wait_list } in
    let first : leb slot (length w.priority_wait_list) ≡ true = ground (arith, b) in
    let same = λ (g : ℕ). places-put_first g c.guid t w in
    elim (Bool-cases (leb (o + slot) m)) [
      | inl y ↦ rw (y, first) (inl (refl, refl))
      | inr n ↦
          rw (n, first)
            (inr (
              refl,
              (w', false),
              refl,
              λ g. omega (arith, h g, same g),
              inr (get_client_slot-places c.guid w' (omega (arith, p, same c.guid))),
            ))
    ]

-- An entry in the other list.
found_second :
    (now m o slot : ℕ) (c : Client) (w : WaitLists)
    → length w.priority_wait_list < slot
    → 1 ≤ places c.guid w
    → ((g : ℕ) → places g w ≤ 1)
    → Kept c.guid false (found now m o c w slot)
unfolding found
found_second now m o slot c w b p h =
    let t = get_timeout now slot in
    let w' = record w { wait_list = put_timeout c.guid t w.wait_list } in
    let gone = record w { wait_list = erase_client c.guid w.wait_list } in
    let first : leb slot (length w.priority_wait_list) ≡ false = ground (arith, b) in
    let same = λ (g : ℕ). places-put_second g c.guid t w in
    elim (Bool-cases (leb (o + slot) m)) [
      | inl y ↦
          rw (y, first)
            (inr (
              refl,
              (gone, true),
              refl,
              λ g. omega (arith, h g, places-erase g c.guid w),
              inl refl,
            ))
      | inr n ↦
          rw (n, first)
            (inr (
              refl,
              (w', false),
              refl,
              λ g. omega (arith, h g, same g),
              inr (get_client_slot-places c.guid w' (omega (arith, p, same c.guid))),
            ))
    ]

lined_up :
    (now : ℕ) (c : Client) (w : WaitLists)
    → places c.guid w ≡ 0
    → ((g : ℕ) → places g w ≤ 1)
    → Kept c.guid false (some (line_up now c w, false))
lined_up now c w z h = inr (
  refl,
  (line_up now c w, false),
  refl,
  λ g. ground (arith, h g, z, places-line_up g now c w),
  inr (
      get_client_slot-places c.guid (line_up now c w)
        (ground (arith, places-line_up c.guid now c w))),
)

queue_up-Kept :
    (now m o : ℕ) (c : Client) (w : WaitLists)
    → ((g : ℕ) → places g w ≤ 1)
    → Kept c.guid (is_due m o c w) (queue_up now m o c w)
unfolding queue_up find_client is_due
queue_up-Kept now m o c w h = elim (Option-cases (find_slot c.guid 1 w.priority_wait_list)) [
  | inr (s, e) ↦
      let (a, b) = find_slot-some c.guid 1 s w.priority_wait_list e in
      let u = find_slot_bound c.guid 1 s w.priority_wait_list e in
      rw (queue_up, find_client, is_due, e)
        (found_first now m o s c w (omega (arith, u)) (in_first c.guid w a) h)
  | inl e ↦
      let k = 1 + length w.priority_wait_list in
      elim (Option-cases (find_slot c.guid k w.wait_list)) [
        | inr (s, d) ↦
            let (a, b) = find_slot-some c.guid k s w.wait_list d in
            rw (queue_up, find_client, is_due, e, d)
              (found_second now m o s c w (omega (arith, b)) (in_second c.guid w a) h)
        | inl d ↦
            let y = find_slot-none c.guid 1 w.priority_wait_list e in
            let z = find_slot-none c.guid k w.wait_list d in
            rw (queue_up, find_client, is_due, e, d) (lined_up now c w (in_none c.guid w y z) h)
      ]
]

first_tests :
    (guid : ℕ) (a b d due : Bool) (r q : Option (WaitLists × Bool))
    → Kept guid false r
    → Kept guid due q
    → Kept guid (not (a || b || d) && due) (if a then r else if b || d then r else q)
first_tests guid true b d due r q h k = h
first_tests guid false true d due r q h k = h
first_tests guid false false true due r q h k = h
first_tests guid false false false due r q h k = k

-- `clientLogin`, where no client has more than one entry in both lists. Where the client is not let in by the first
-- tests, and stands in the list of premium players at a slot at which it may come in, the behaviour is
-- undefined. Otherwise none has more than one entry afterwards, and the client is let in or stands in line, at
-- the slot that `getClientSlot` answers.
pub client_login_lem :
    (now max_players online : ℕ) (c : Client) (w : WaitLists)
    → ((g : ℕ) → places g w ≤ 1)
    → let first =
        c.may_always
        || (max_players == 0)
        || ((is_empty w.priority_wait_list && is_empty w.wait_list) && ltb online max_players) in
      Kept c.guid
        (not first && is_due max_players online c (cleanup now w))
        (client_login now max_players online c w)
unfolding client_login
client_login_lem now m o c w h =
    let kept =
      queue_up-Kept now m o c (cleanup now w) (λ g. omega (arith, h g, places-cleanup g now w)) in
    let stays : Kept c.guid false (some (w, true)) = inr (refl, (w, true), refl, h, inl refl) in
    first_tests c.guid c.may_always (m == 0)
      ((is_empty w.priority_wait_list && is_empty w.wait_list) && ltb o m)
      (is_due m o c (cleanup now w)) (some (w, true)) (queue_up now m o c (cleanup now w)) stays
      kept

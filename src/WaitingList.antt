-- ===== src/WaitingList.antt =====
-- The line of players who wait to log in, waitlist.cpp and waitlist.h. The clock, the number of
-- players online and the configuration are arguments.
mod Places
mod Laws
mod Tests
use otchronos.Prelude.{
  ℕ, suc, ◌+◌, ◌*◌, ◌≤◌, ◌≡◌, Option, none, some, Bool, true, false, ◌==◌, ◌||◌, ◌&&◌,
  if◌then◌else◌, ltb, leb, List, [], ◌∷◌, ◌++◌, length, is_empty,
}

-- `Wait`.
pub record Wait : Type 0 where
  pub timeout : ℕ
  pub player_guid : ℕ

-- `priorityWaitList` and `waitList`.
pub record WaitLists : Type 0 where
  pub priority_wait_list : List Wait
  pub wait_list : List Wait

-- `Player` as the line sees it; `may_always` says that CanAlwaysLogin or the type of the account
-- let the player in.
pub record Client : Type 0 where
  pub guid : ℕ
  pub may_always : Bool
  pub is_premium : Bool

-- A loop of `WaitingList::findClient`, from a slot on.
unfoldable pub find_slot : ℕ → ℕ → List Wait → Option ℕ
find_slot guid slot [] = none
find_slot guid slot (x ∷ xs) =
    let rest = find_slot guid (slot + 1) xs in if x.player_guid == guid then some slot else rest

-- `WaitingList::findClient`: the slot, where there is one.
unfoldable pub find_client : ℕ → WaitLists → Option ℕ
find_client guid w = elim (find_slot guid 1 w.priority_wait_list) [
  | some slot ↦ some slot
  | none ↦ find_slot guid (1 + length w.priority_wait_list) w.wait_list
]

-- `WaitingList::getTime`.
unfoldable pub get_time : ℕ → ℕ
get_time slot =
    if ltb slot 5
    then 5
    else if ltb slot 10
    then 10
    else if ltb slot 20
    then 20
    else if ltb slot 50
    then 60
    else 120

-- `WaitingList::getTimeout`, in milliseconds from the time `now`.
unfoldable pub get_timeout : ℕ → ℕ → ℕ
get_timeout now slot = now + (get_time slot + 15) * 1000

-- `WaitingList::cleanupList`.
unfoldable pub cleanup_list : ℕ → List Wait → List Wait
cleanup_list now [] = []
cleanup_list now (x ∷ xs) =
    let rest = cleanup_list now xs in if leb x.timeout now then rest else x ∷ rest

-- `erase(it)` of the client's entry.
unfoldable pub erase_client : ℕ → List Wait → List Wait
erase_client guid [] = []
erase_client guid (x ∷ xs) = if x.player_guid == guid then xs else x ∷ erase_client guid xs

-- `it->timeout = …`.
unfoldable pub put_timeout : ℕ → ℕ → List Wait → List Wait
put_timeout guid t [] = []
put_timeout guid t (x ∷ xs) =
    if x.player_guid == guid
    then record { timeout = t; player_guid = x.player_guid } ∷ xs
    else x ∷ put_timeout guid t xs

-- The client's entry, found at `slot`, the iterator of which is in `priorityWaitList` where the slot is
-- within that list. The source erases it from `waitList` in any case: what that does to an iterator
-- of the other list is undefined, and here `none`. Iterators are compared by the entries they stand at.
unfoldable pub found : ℕ → ℕ → ℕ → Client → WaitLists → ℕ → Option (WaitLists × Bool)
found now max_players online c w slot =
    let first = leb slot (length w.priority_wait_list) in
    let t = get_timeout now slot in
    if leb (online + slot) max_players
    then if first
      then none
      else some (record w { wait_list = erase_client c.guid w.wait_list }, true)
    else if first
    then some (record w { priority_wait_list = put_timeout c.guid t w.priority_wait_list }, false)
    else some (record w { wait_list = put_timeout c.guid t w.wait_list }, false)

-- A client without an entry goes to the end of one of the lists.
unfoldable pub line_up : ℕ → Client → WaitLists → WaitLists
line_up now c w =
    let slot = length w.priority_wait_list in
    if c.is_premium
    then record {
      priority_wait_list =
          w.priority_wait_list
          ++ record { timeout = get_timeout now (slot + 1); player_guid = c.guid } ∷ [];
      wait_list = w.wait_list;
    }
    else record {
      priority_wait_list = w.priority_wait_list;
      wait_list =
          w.wait_list
          ++ record {
            timeout = get_timeout now (slot + length w.wait_list + 1);
            player_guid = c.guid;
          }
            ∷ [];
    }

unfoldable pub cleanup : ℕ → WaitLists → WaitLists
cleanup now w = record {
  priority_wait_list = cleanup_list now w.priority_wait_list;
  wait_list = cleanup_list now w.wait_list;
}

-- `WaitingList::clientLogin` behind its first tests.
unfoldable pub queue_up : ℕ → ℕ → ℕ → Client → WaitLists → Option (WaitLists × Bool)
queue_up now max_players online c w = elim (find_client c.guid w) [
  | some slot ↦ found now max_players online c w slot
  | none ↦ some (line_up now c w, false)
]

-- `WaitingList::clientLogin`; `none` where its behaviour is undefined.
unfoldable pub client_login : ℕ → ℕ → ℕ → Client → WaitLists → Option (WaitLists × Bool)
client_login now max_players online c w =
    if c.may_always
    then some (w, true)
    else if (max_players == 0)
        || ((is_empty w.priority_wait_list && is_empty w.wait_list) && ltb online max_players)
    then some (w, true)
    else queue_up now max_players online c (cleanup now w)

-- `WaitingList::getClientSlot`.
unfoldable pub get_client_slot : ℕ → WaitLists → ℕ
get_client_slot guid w = elim (find_client guid w) [ none ↦ 0 | some slot ↦ slot ]

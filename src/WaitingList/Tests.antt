-- ===== src/WaitingList/Tests.antt =====
-- A client who comes to a server that is full.
use otchronos.Prelude.{ℕ, Option, none, some, Bool, ◌≤◌, ◌≡◌, refl, false, [], ◌∷◌, arith}
use otchronos.WaitingList.{
  WaitLists, Client, client_login, get_client_slot, queue_up, find_client, find_slot, cleanup,
  cleanup_list, line_up,
}
use otchronos.WaitingList.Places.{places, standing}
use otchronos.WaitingList.Laws.{is_due, Kept, client_login_lem}

-- The entry of client 3 has run out at the time 1000.
abbrev line : WaitLists
line = record {
  priority_wait_list = record { timeout = 5000; player_guid = 2 } ∷ [];
  wait_list = record { timeout = 900; player_guid = 3 } ∷ [];
}

abbrev comer : Client
comer = record { guid = 7; may_always = false; is_premium = false }

line-places : (g : ℕ) → places g line ≤ 1
unfolding places standing
line-places g = ground arith

client_login_lem_example :
    Kept 7 (is_due 100 100 comer (cleanup 1000 line)) (client_login 1000 100 100 comer line)
client_login_lem_example = client_login_lem 1000 100 100 comer line line-places

slot_after : ℕ → Option (WaitLists × Bool) → ℕ
slot_after guid none = 0
slot_after guid (some r) = get_client_slot guid r.0

-- The comer takes the place of client 3, behind client 2.
client_login_test : slot_after 7 (client_login 1000 100 100 comer line) ≡ 2
unfolding client_login queue_up find_client find_slot cleanup cleanup_list line_up get_client_slot
    slot_after
client_login_test = refl

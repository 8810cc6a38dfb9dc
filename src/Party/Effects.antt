-- ===== src/Party/Effects.antt =====
-- What a pass of the leadership and a disband do, beyond keeping the invariant.
use otchronos.Prelude.{
  ℕ, ◌≡◌, ◌∷◌, none, some, true, false, ◌==◌, arith, count-cons, count-erase, erase,
}
use otchronos.Party.State.{Party, World, Env, in_party, put_party}
use otchronos.Party.Inv.{Inv, roster, belongs, holds}
use otchronos.Party.Disband.{disband-players, disband-holds, disband-parties}
use otchronos.Party.{refresh, update_shared_experience, disband, pass_party_leadership}

-- When the leader passes the leadership to another member of the party, that member leads, the old
-- leader stands first among the members, and the party has the same people as before, each as often.
pub pass_party_leadership_lem :
    (env : Env) (i p : ℕ) (c : Party) (w : World)
    → w.parties i ≡ some c
    → (c.leader == p) ≡ false
    → in_party i (w.players p) ≡ true
    → Inv w
    → let r = pass_party_leadership env i p w in
      (r.1 ≡ true)
      × ((c' : Party) × (r.0.parties i ≡ some c')
          × (c'.leader ≡ p)
          × (c'.member_list ≡ c.leader ∷ erase p c.member_list))
      × ((q : ℕ) → roster i q r.0 ≡ roster i q w)
unfolding pass_party_leadership update_shared_experience put_party refresh
pass_party_leadership_lem env i p c w e l b v =
    let c₁ : Party = record c { leader = p; member_list = c.leader ∷ erase p c.member_list } in
    let w₁ = put_party i (some c₁) w in
    (
      ground arith,
      (refresh env w₁ c₁, ground arith, ground arith, ground arith),
      λ q. ground (
        arith,
        v.roster_belongs i p,
        count-cons q c.leader c.member_list,
        count-cons p c.leader c.member_list,
        count-cons q p (c.leader ∷ erase p c.member_list),
        count-cons q c.leader (erase p c.member_list),
        count-erase q p c.member_list,
      ),
    )

-- A party that disbands with its script's consent is gone, and nobody has it for a party or holds
-- an invitation of it any more; every other party, and what players say of it, is as before.
pub disband_lem :
    (env : Env) (i : ℕ) (c : Party) (w : World) (q : ℕ)
    → w.parties i ≡ some c
    → env.on_disband w i ≡ true
    → Inv w
    → let w' = disband env i w in
      (w'.parties i ≡ none)
      × (belongs i q w' ≡ 0)
      × (holds i q w' ≡ 0)
      × ((j : ℕ)
          → (i == j) ≡ false
          → (w'.parties j ≡ w.parties j)
            × (belongs j q w' ≡ belongs j q w)
            × (holds j q w' ≡ holds j q w))
disband_lem env i c w q e t v = (
  ground (arith, disband-parties env i i c w e t),
  ground (
    arith,
    disband-players env i c w q e t,
    v.roster_belongs i q,
    count-cons q c.leader c.member_list,
  ),
  ground (arith, disband-holds env i i c w q e t, v.invited_holds i q),
  λ j h. (
    ground (arith, h, disband-parties env i j c w e t),
    ground (
      arith,
      disband-players env i c w q e t,
      v.roster_belongs i q,
      count-cons q c.leader c.member_list,
    ),
    ground (arith, disband-holds env i j c w q e t),
  ),
)

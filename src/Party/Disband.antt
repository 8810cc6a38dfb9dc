-- ===== src/Party/Disband.antt =====
-- `Party::disband`: what it leaves behind, and that it restores the invariant.
use otchronos.Prelude.{ℕ, ◌≡◌, ◌∷◌, none, some, true, ◌==◌, if◌then◌else◌, arith, count, count-cons}
use otchronos.Party.State.{Party, World, Env, put_party, set_party}
use otchronos.Party.Inv.{Inv, InvBut, holds}
use otchronos.Party.Loops.{
  each_member-players, each_member-parties, each_member-next, each_invitee-party, each_invitee-list,
  each_invitee-parties, each_invitee-next,
}
use otchronos.Party.{each_invitee, disband}

pub Inv-but : (i : ℕ) (w : World) → Inv w → InvBut i w
Inv-but i w v = record {
  roster_belongs = λ j p _. v.roster_belongs j p;
  within = λ p. omega (arith, v.roster_belongs i p);
  alone = λ j p h. ground (arith, v.roster_belongs i p);
  invited_holds = v.invited_holds;
  apart = v.apart;
  unmade = v.unmade;
}

pub disband-players :
    (env : Env) (i : ℕ) (c : Party) (w : World) (q : ℕ)
    → w.parties i ≡ some c
    → env.on_disband w i ≡ true
    → (((disband env i w).players q).party
        ≡ (if count q (c.leader ∷ c.member_list) == 0 then (w.players q).party else none))
unfolding disband put_party set_party count
disband-players env i c w q e t =
    let w₁ = set_party c.leader none w in
    let w₂ = each_invitee i c.invite_list w₁ in
    ground (arith, each_member-players c.member_list w₂ q, each_invitee-party i c.invite_list w₁ q)

pub disband-holds :
    (env : Env) (i j : ℕ) (c : Party) (w : World) (q : ℕ)
    → w.parties i ≡ some c
    → env.on_disband w i ≡ true
    → holds j q (disband env i w)
      ≡ (if count q c.invite_list == 0 then holds j q w else if i == j then 0 else holds j q w)
unfolding disband put_party set_party
disband-holds env i j c w q e t =
    let w₁ = set_party c.leader none w in
    let w₂ = each_invitee i c.invite_list w₁ in
    ground (arith, each_member-players c.member_list w₂ q, each_invitee-list i j c.invite_list w₁ q)

pub disband-parties :
    (env : Env) (i j : ℕ) (c : Party) (w : World)
    → w.parties i ≡ some c
    → env.on_disband w i ≡ true
    → (disband env i w).parties j ≡ (if i == j then none else w.parties j)
unfolding disband put_party set_party
disband-parties env i j c w e t =
    let w₁ = set_party c.leader none w in
    let w₂ = each_invitee i c.invite_list w₁ in
    ground
      (arith, each_member-parties c.member_list w₂ j, each_invitee-parties i c.invite_list w₁ j)

pub disband-next :
    (env : Env) (i : ℕ) (c : Party) (w : World)
    → w.parties i ≡ some c
    → env.on_disband w i ≡ true
    → (disband env i w).next_party ≡ w.next_party
unfolding disband put_party set_party
disband-next env i c w e t =
    let w₁ = set_party c.leader none w in
    let w₂ = each_invitee i c.invite_list w₁ in
    ground (arith, each_member-next c.member_list w₂, each_invitee-next i c.invite_list w₁)

-- A disbanding party takes its entries with it, whatever the leader's own entry says.
pub disband-Inv :
    (env : Env) (i : ℕ) (c : Party) (w : World)
    → w.parties i ≡ some c
    → env.on_disband w i ≡ true
    → InvBut i w
    → Inv (disband env i w)
disband-Inv env i c w e t v = record {
  roster_belongs = λ j p. ground (
    arith,
    disband-parties env i j c w e t,
    disband-players env i c w p e t,
    v.roster_belongs j p,
    v.within p,
    v.alone j p,
    count-cons p c.leader c.member_list,
  );
  invited_holds = λ j p. ground (
    arith,
    disband-parties env i j c w e t,
    disband-holds env i j c w p e t,
    v.invited_holds j p,
  );
  apart = λ j p.
      ground (arith, disband-players env i c w p e t, disband-holds env i j c w p e t, v.apart j p);
  unmade = λ j h.
      ground (arith, disband-parties env i j c w e t, disband-next env i c w e t, v.unmade j);
}

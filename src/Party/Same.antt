-- ===== src/Party/Same.antt =====
-- The methods that touch the shared experience and the points only: they leave every list, and
-- what the players say of their parties, as it was.
use otchronos.Prelude.{
  ℕ, ◌≡◌, refl, ◌∙◌, Option, none, some, Bool, ◌||◌, ◌==◌, arith, Option-cases, Bool-cases, inl,
  inr,
}
use otchronos.Party.State.{CountBlock, Party, World, Env, put_party}
use otchronos.Party.Inv.{Inv, InvBut, roster, invited, holds}
use otchronos.Party.{
  find_points, refresh, update_shared_experience, switch_shared, set_shared_experience,
  clear_player_points, record_points,
}

pub record Same (w w' : World) : Type 0 where
  pub parties_of : (p : ℕ) → (w'.players p).party ≡ (w.players p).party
  pub held : (j p : ℕ) → holds j p w' ≡ holds j p w
  pub rosters : (j p : ℕ) → roster j p w' ≡ roster j p w
  pub invitations : (j p : ℕ) → invited j p w' ≡ invited j p w
  pub next : w'.next_party ≡ w.next_party
  pub gone : (j : ℕ) → w.parties j ≡ none → w'.parties j ≡ none

pub Same-refl : (w : World) → Same w w
Same-refl w = record {
  parties_of = λ p. refl;
  held = λ j p. refl;
  rosters = λ j p. refl;
  invitations = λ j p. refl;
  next = refl;
  gone = λ j e. e;
}

pub Same-trans : {u v w : World} → Same u v → Same v w → Same u w
Same-trans s t = record {
  parties_of = λ p. t.parties_of p ∙ s.parties_of p;
  held = λ j p. t.held j p ∙ s.held j p;
  rosters = λ j p. t.rosters j p ∙ s.rosters j p;
  invitations = λ j p. t.invitations j p ∙ s.invitations j p;
  next = t.next ∙ s.next;
  gone = λ j e. t.gone j (s.gone j e);
}

pub Same-Inv : {w w' : World} → Same w w' → Inv w → Inv w'
Same-Inv s v = record {
  roster_belongs = λ j p. ground (arith, s.parties_of p, s.rosters j p, v.roster_belongs j p);
  invited_holds = λ j p. ground (arith, s.held j p, s.invitations j p, v.invited_holds j p);
  apart = λ j p. ground (arith, s.parties_of p, s.held j p, v.apart j p);
  unmade = λ j h. s.gone j (v.unmade j (omega (arith, s.next)));
}

pub Same-InvBut : {i : ℕ} {w w' : World} → Same w w' → InvBut i w → InvBut i w'
Same-InvBut {i} s v = record {
  roster_belongs = λ j p h. ground (arith, s.parties_of p, s.rosters j p, v.roster_belongs j p h);
  within = λ p. ground (arith, s.parties_of p, s.rosters i p, v.within p);
  alone = λ j p h. ground (arith, s.parties_of p, s.rosters i p, v.alone j p h);
  invited_holds = λ j p. ground (arith, s.held j p, s.invitations j p, v.invited_holds j p);
  apart = λ j p. ground (arith, s.parties_of p, s.held j p, v.apart j p);
  unmade = λ j h. s.gone j (v.unmade j (omega (arith, s.next)));
}

pub put_party-Same :
    (i : ℕ) (c d : Party) (w : World)
    → w.parties i ≡ some c
    → d.leader ≡ c.leader
    → d.member_list ≡ c.member_list
    → d.invite_list ≡ c.invite_list
    → Same w (put_party i (some d) w)
unfolding put_party
put_party-Same i c d w e l m n = record {
  parties_of = λ p. refl;
  held = λ j p. refl;
  rosters = λ j p. ground arith;
  invitations = λ j p. ground arith;
  next = refl;
  gone = λ j h. ground arith;
}

refresh_lists :
    (env : Env) (w : World) (c : Party)
    → ((refresh env w c).leader ≡ c.leader)
      × ((refresh env w c).member_list ≡ c.member_list)
      × ((refresh env w c).invite_list ≡ c.invite_list)
unfolding refresh
refresh_lists env w c = ground arith

pub update-Same : (env : Env) (i : ℕ) (w : World) → Same w (update_shared_experience env i w)
unfolding update_shared_experience
update-Same env i w = elim (Option-cases (w.parties i)) [
  | inl e ↦ rw (e, update_shared_experience) (Same-refl w)
  | inr (c, e) ↦
      let l = refresh_lists env w c in
      rw (e, update_shared_experience) (put_party-Same i c (refresh env w c) w e l.0 l.1 l.2)
]

pub clear-Same : (env : Env) (i p : ℕ) (w : World) → Same w (clear_player_points env i p w)
unfolding clear_player_points
clear-Same env i p w = elim (Option-cases (w.parties i)) [
  | inl e ↦ rw (e, clear_player_points) (Same-refl w)
  | inr (c, e) ↦ elim (Option-cases (find_points p c.point_map)) [
    | inl f ↦ rw (e, clear_player_points, f) (Same-refl w)
    | inr (b, f) ↦
        rw (e, clear_player_points, f)
          (Same-trans (put_party-Same i c _ w e refl refl refl) (update-Same env i _))
  ]
]

switch_shared_lists :
    (env : Env) (w : World) (active : Bool) (c : Party)
    → ((switch_shared env w active c).leader ≡ c.leader)
      × ((switch_shared env w active c).member_list ≡ c.member_list)
      × ((switch_shared env w active c).invite_list ≡ c.invite_list)
unfolding switch_shared
switch_shared_lists env w active c = ground arith

pub set_shared-Same :
    (env : Env) (i p : ℕ) (active : Bool) (w : World)
    → Same w (set_shared_experience env i p active w).0
unfolding set_shared_experience
set_shared-Same env i p active w = elim (Option-cases (w.parties i)) [
  | inl e ↦ rw (e, set_shared_experience) (Same-refl w)
  | inr (c, e) ↦
      let l = switch_shared_lists env w active c in
      let changed = put_party-Same i c (switch_shared env w active c) w e l.0 l.1 l.2 in
      rw (e, set_shared_experience) (ground (arith, changed, Same-refl w))
]

pub record_points-Same :
    (add : ℕ → ℕ → Option CountBlock → CountBlock) (env : Env) (i p points : ℕ) (w : World)
    → Same w (record_points add env i p points w)
unfolding record_points
record_points-Same add env i p points w =
    elim (Bool-cases ((w.players p).not_gain_in_fight || points == 0)) [
      | inl b ↦ rw b (Same-refl w)
      | inr b ↦ rw b (elim (Option-cases (w.parties i)) [
        | inl e ↦ rw e (Same-refl w)
        | inr (c, e) ↦
            rw e (Same-trans (put_party-Same i c _ w e refl refl refl) (update-Same env i _))
      ])
    ]

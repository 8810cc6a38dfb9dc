-- ===== src/Party/Keep.antt =====
-- That the methods of `class Party` keep the invariant, as long as no script stops a disband.
use otchronos.Prelude.{
  ℕ, ◌≡◌, ◌∷◌, none, some, Bool, true, false, not, ◌||◌, ◌==◌, arith, count-cons, count-erase,
  erase, Option-cases, Bool-cases, inl, inr,
}
use otchronos.Party.State.{Party, World, Env, in_party, put_party, put_player, set_party}
use otchronos.Party.Inv.{Inv, InvBut}
use otchronos.Party.Disband.{disband-Inv, Inv-but}
use otchronos.Party.Same.{Same-Inv, update-Same}
use otchronos.Party.{erase_member, finish_leave, pass_party_leadership}

abbrev pub Disbands : Env → Type 0
Disbands env = (w : World) (i : ℕ) → env.on_disband w i ≡ true

pub finish_leave-Inv :
    (env : Env) (i : ℕ) (b : Bool) (w : World) → Disbands env → Inv w → Inv (finish_leave env i b w)
unfolding finish_leave
finish_leave-Inv env i b w d v = elim (Option-cases (w.parties i)) [
  | inl e ↦ rw (e, finish_leave) v
  | inr (c, e) ↦
      let ended = disband-Inv env i c w e (d w i) (Inv-but i w v) in
      rw (e, finish_leave) (ground (arith, ended, v))
]

pub finish_leave-restores :
    (env : Env) (i : ℕ) (w : World) → Disbands env → InvBut i w → Inv (finish_leave env i true w)
unfolding finish_leave
finish_leave-restores env i w d v = elim (Option-cases (w.parties i)) [
  | inl e ↦
      rw (e, finish_leave)
        (record {
          roster_belongs = λ j p. ground (arith, v.roster_belongs j p, v.within p);
          invited_holds = v.invited_holds;
          apart = v.apart;
          unmade = v.unmade;
        })
  | inr (c, e) ↦ rw (e, finish_leave) (disband-Inv env i c w e (d w i) v)
]

-- `pass_party_leadership`, before the shared experience is looked at again.
passed-Inv :
    (i p : ℕ) (c : Party) (w : World)
    → w.parties i ≡ some c
    → (c.leader == p) ≡ false
    → in_party i (w.players p) ≡ true
    → Inv w
    → Inv (
        put_party i
          (some (record c { leader = p; member_list = c.leader ∷ erase p c.member_list }))
          w)
unfolding put_party
passed-Inv i p c w e l b v = record {
  roster_belongs = λ j q. ground (
    arith,
    v.roster_belongs j q,
    v.roster_belongs i p,
    count-cons q c.leader c.member_list,
    count-cons p c.leader c.member_list,
    count-cons q p (c.leader ∷ erase p c.member_list),
    count-cons q c.leader (erase p c.member_list),
    count-erase q p c.member_list,
  );
  invited_holds = λ j q. ground (arith, v.invited_holds j q);
  apart = v.apart;
  unmade = λ j h. ground (arith, v.unmade j h);
}

pub pass-Inv : (env : Env) (i p : ℕ) (w : World) → Inv w → Inv (pass_party_leadership env i p w).0
unfolding pass_party_leadership
pass-Inv env i p w v = elim (Option-cases (w.parties i)) [
  | inl e ↦ rw (e, pass_party_leadership) v
  | inr (c, e) ↦ elim (Bool-cases (c.leader == p || not (in_party i (w.players p)))) [
    | inl s ↦ rw (e, pass_party_leadership, s) v
    | inr s ↦
        rw (e, pass_party_leadership, s)
          (Same-Inv (update-Same env i _) (passed-Inv i p c w e (ground arith) (ground arith) v))
  ]
]

-- One who is not the leader drops out.
pub dropped-Inv :
    (i p : ℕ) (c : Party) (w : World)
    → w.parties i ≡ some c
    → (c.leader == p) ≡ false
    → in_party i (w.players p) ≡ true
    → Inv w
    → Inv (set_party p none (erase_member i p w))
unfolding erase_member put_party set_party put_player
dropped-Inv i p c w e l b v = record {
  roster_belongs = λ j q. ground (
    arith,
    v.roster_belongs j q,
    v.roster_belongs j p,
    v.roster_belongs i p,
    count-cons q c.leader c.member_list,
    count-cons p c.leader c.member_list,
    count-cons q c.leader (erase p c.member_list),
    count-erase q p c.member_list,
  );
  invited_holds = λ j q. ground (arith, v.invited_holds j q);
  apart = λ j q. ground (arith, v.apart j q);
  unmade = λ j h. ground (arith, v.unmade j);
}

-- The leader drops out and nobody follows.
pub dropped-InvBut :
    (i p : ℕ) (c : Party) (w : World)
    → w.parties i ≡ some c
    → (c.leader == p) ≡ true
    → Inv w
    → InvBut i (set_party p none (erase_member i p w))
unfolding erase_member put_party set_party put_player
dropped-InvBut i p c w e l v = record {
  roster_belongs = λ j q h.
      ground
        (arith, v.roster_belongs j q, v.roster_belongs i p, count-cons p c.leader c.member_list);
  within = λ q. ground (
    arith,
    v.roster_belongs i q,
    count-cons q c.leader c.member_list,
    count-cons q c.leader (erase p c.member_list),
    count-erase q p c.member_list,
  );
  alone = λ j q h. ground (
    arith,
    v.roster_belongs i q,
    v.roster_belongs j q,
    count-cons q c.leader c.member_list,
    count-cons q c.leader (erase p c.member_list),
    count-erase q p c.member_list,
  );
  invited_holds = λ j q. ground (arith, v.invited_holds j q);
  apart = λ j q. ground (arith, v.apart j q);
  unmade = λ j h. ground (arith, v.unmade j);
}

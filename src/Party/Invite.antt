-- ===== src/Party/Invite.antt =====
-- The ways into and out of the invitation list, and a new party, keep the invariant.
use otchronos.Prelude.{
  ℕ, ◌≡◌, [], ◌∷◌, ◌++◌, none, some, true, false, arith, count-cons, count-nil, count-append,
  count-erase, count-remove, elem, erase, elem-count, Option-cases, Bool-cases, inl, inr,
}
use otchronos.Party.State.{Party, World, Env, put_party, put_player, set_party}
use otchronos.Party.Inv.{Inv}
use otchronos.Party.Same.{Same-Inv, update-Same}
use otchronos.Party.Keep.{Disbands, finish_leave-Inv}
use otchronos.Party.{
  join_party, remove_invite, invite_player, new_party, remove_party_invitation,
  add_party_invitation,
}

-- An invitation is taken back on both sides.
uninvited-Inv :
    (i p : ℕ) (c : Party) (w : World)
    → w.parties i ≡ some c
    → Inv w
    → Inv (
        remove_party_invitation p i
          (put_party i (some (record c { invite_list = erase p c.invite_list })) w))
unfolding remove_party_invitation put_party put_player
uninvited-Inv i p c w e v = record {
  roster_belongs = λ j q. ground (arith, v.roster_belongs j q);
  invited_holds = λ j q. ground (
    arith,
    v.invited_holds j q,
    v.apart j q,
    count-erase q p c.invite_list,
    count-remove j i (w.players p).invite_party_list,
  );
  apart = λ j q. ground (arith, v.apart j q, count-remove j i (w.players p).invite_party_list);
  unmade = λ j h. ground (arith, v.unmade j h);
}

pub remove_invite-Inv :
    (env : Env) (i p : ℕ) (w : World) → Disbands env → Inv w → Inv (remove_invite env i p true w).0
unfolding remove_invite
remove_invite-Inv env i p w d v = elim (Option-cases (w.parties i)) [
  | inl e ↦ rw (e, remove_invite) v
  | inr (c, e) ↦ elim (Bool-cases (elem p c.invite_list)) [
    | inr f ↦ rw (e, remove_invite, f) v
    | inl f ↦
        rw (e, remove_invite, f) (finish_leave-Inv env i false _ d (uninvited-Inv i p c w e v))
  ]
]

-- An invited player who is in no party joins.
joined-Inv :
    (i p : ℕ) (c : Party) (w : World)
    → w.parties i ≡ some c
    → elem p c.invite_list ≡ true
    → (w.players p).party ≡ none
    → Inv w
    → Inv (
        remove_party_invitation p i (
          put_party i
            (some (record c {
              invite_list = erase p c.invite_list;
              member_list = c.member_list ++ p ∷ [];
            }))
            (set_party p (some i) w)))
unfolding remove_party_invitation put_party put_player set_party
joined-Inv i p c w e f n v = record {
  roster_belongs = λ j q. ground (
    arith,
    v.roster_belongs j q,
    count-cons q c.leader c.member_list,
    count-cons q c.leader (c.member_list ++ p ∷ []),
    count-append q c.member_list (p ∷ []),
    count-cons q p [],
    count-nil q,
  );
  invited_holds = λ j q. ground (
    arith,
    v.invited_holds j q,
    v.apart j q,
    count-erase q p c.invite_list,
    count-remove j i (w.players p).invite_party_list,
  );
  apart = λ j q.
      ground (arith, v.apart j q, v.apart i q, count-remove j i (w.players p).invite_party_list);
  unmade = λ j h. ground (arith, v.unmade j h);
}

pub join-Inv :
    (env : Env) (i p : ℕ) (w : World)
    → (w.players p).party ≡ none
    → Inv w
    → Inv (join_party env i p w).0
unfolding join_party
join-Inv env i p w n v = elim (Bool-cases (env.on_join w i p)) [
  | inr a ↦ rw a v
  | inl a ↦ elim (Option-cases (w.parties i)) [
    | inl e ↦ rw (a, e, join_party) v
    | inr (c, e) ↦ elim (Bool-cases (elem p c.invite_list)) [
      | inr f ↦ rw (a, e, join_party, f) v
      | inl f ↦
          rw (a, e, join_party, f) (Same-Inv (update-Same env i _) (joined-Inv i p c w e f n v))
    ]
  ]
]

-- A player in no party, not yet invited by `i`, is invited.
invited-Inv :
    (i p : ℕ) (c : Party) (w : World)
    → w.parties i ≡ some c
    → elem p c.invite_list ≡ false
    → (w.players p).party ≡ none
    → Inv w
    → Inv (
        add_party_invitation p i
          (put_party i (some (record c { invite_list = c.invite_list ++ p ∷ [] })) w))
unfolding add_party_invitation put_party put_player
invited-Inv i p c w e f n v = record {
  roster_belongs = λ j q. ground (arith, v.roster_belongs j q);
  invited_holds = λ j q. ground (
    arith,
    v.invited_holds j q,
    v.invited_holds i p,
    elem-count p c.invite_list,
    elem-count i (w.players p).invite_party_list,
    count-append q c.invite_list (p ∷ []),
    count-cons q p [],
    count-nil q,
    count-cons j i (w.players p).invite_party_list,
  );
  apart = λ j q. ground (
    arith,
    v.apart j q,
    v.invited_holds i p,
    elem-count p c.invite_list,
    elem-count i (w.players p).invite_party_list,
    count-cons j i (w.players p).invite_party_list,
  );
  unmade = λ j h. ground (arith, v.unmade j);
}

pub invite-Inv :
    (i p : ℕ) (w : World) → (w.players p).party ≡ none → Inv w → Inv (invite_player i p w).0
unfolding invite_player
invite-Inv i p w n v = elim (Option-cases (w.parties i)) [
  | inl e ↦ rw (e, invite_player) v
  | inr (c, e) ↦ elim (Bool-cases (elem p c.invite_list)) [
    | inl f ↦ rw (e, invite_player, f) v
    | inr f ↦ rw (e, invite_player, f) (invited-Inv i p c w e f n v)
  ]
]

pub new_party-Inv : (p : ℕ) (w : World) → (w.players p).party ≡ none → Inv w → Inv (new_party p w)
unfolding new_party put_party set_party put_player
new_party-Inv p w n v = record {
  roster_belongs =
      λ j q. ground (arith, v.roster_belongs j q, v.unmade j, count-cons q p [], count-nil q);
  invited_holds = λ j q. ground (arith, v.invited_holds j q, v.unmade j, count-nil q);
  apart = λ j q. ground (arith, v.apart j q, v.invited_holds j q, v.unmade j, count-nil q);
  unmade = λ j h. ground (arith, v.unmade j);
}

-- ===== src/Party/Logout.antt =====
-- `Player::clearPartyInvitations` keeps the invariant: the loop takes the player from the lists of
-- the parties one by one, and empties the own list only at its end.
use otchronos.Prelude.{
  ℕ, ◌≡◌, refl, List, [], ◌∷◌, some, true, false, arith, count, count-cons, count-erase, elem,
  erase, elem-count, Option-cases, Bool-cases, inl, inr, ◌∙◌,
}
use otchronos.Party.State.{Party, World, Env, is_deserted, put_party, put_player}
use otchronos.Party.Inv.{Inv}
use otchronos.Party.Disband.{
  disband-Inv, Inv-but, disband-players, disband-holds, disband-parties, disband-next,
}
use otchronos.Party.Same.{Same, Same-Inv}
use otchronos.Party.Keep.{Disbands}
use otchronos.Party.{disband, finish_leave, remove_invite, each_inviting, clear_party_invitations}

-- The world with another invitation list for `p`.
with_list : ℕ → List ℕ → World → World
with_list p l w = put_player p (record (w.players p) { invite_party_list = l }) w

with_list-parties :
    (p : ℕ) (l : List ℕ) (i : ℕ) (w : World) → (with_list p l w).parties i ≡ w.parties i
unfolding with_list put_player
with_list-parties p l i w = refl

-- A party that has not invited `p` does not look at what `p` holds when it disbands.
disband-with_list :
    (env : Env) (i p : ℕ) (l : List ℕ) (c : Party) (w : World)
    → Disbands env
    → w.parties i ≡ some c
    → count p c.invite_list ≡ 0
    → Same (disband env i (with_list p l w)) (with_list p l (disband env i w))
unfolding with_list put_player
disband-with_list env i p l c w d e z = record {
  parties_of = λ q. ground (
    arith,
    disband-players env i c w q e (d w i),
    disband-players env i c (with_list p l w) q e (d (with_list p l w) i),
  );
  held = λ j q. ground (
    arith,
    disband-holds env i j c w q e (d w i),
    disband-holds env i j c (with_list p l w) q e (d (with_list p l w) i),
  );
  rosters = λ j q. ground (
    arith,
    disband-parties env i j c w e (d w i),
    disband-parties env i j c (with_list p l w) e (d (with_list p l w) i),
  );
  invitations = λ j q. ground (
    arith,
    disband-parties env i j c w e (d w i),
    disband-parties env i j c (with_list p l w) e (d (with_list p l w) i),
  );
  next = ground (
    arith,
    disband-next env i c w e (d w i),
    disband-next env i c (with_list p l w) e (d (with_list p l w) i),
  );
  gone = λ j h. ground (
    arith,
    h,
    disband-parties env i j c w e (d w i),
    disband-parties env i j c (with_list p l w) e (d (with_list p l w) i),
  );
}

put_party_self : (i : ℕ) (c : Party) (w : World) → (put_party i (some c) w).parties i ≡ some c
unfolding put_party
put_party_self i c w = ground arith

-- One round: the invitation of `i` goes from the party, and from what is left of the own list.
one_less :
    (i p : ℕ) (is : List ℕ) (c : Party) (w : World)
    → w.parties i ≡ some c
    → elem p c.invite_list ≡ true
    → Inv (with_list p (i ∷ is) w)
    → Inv (with_list p is (put_party i (some (record c { invite_list = erase p c.invite_list })) w))
unfolding with_list put_party put_player
one_less i p is c w e f v = record {
  roster_belongs = λ j q. ground (arith, v.roster_belongs j q);
  invited_holds = λ j q.
      ground
        (arith, v.invited_holds j q, v.apart j q, count-erase q p c.invite_list, count-cons j i is);
  apart = λ j q. ground (arith, v.apart j q, count-cons j i is);
  unmade = λ j h. ground (arith, v.unmade j h);
}

ended_or_not :
    (env : Env) (i p : ℕ) (is : List ℕ) (c : Party) (w : World)
    → Disbands env
    → w.parties i ≡ some c
    → count p c.invite_list ≡ 0
    → Inv (with_list p is w)
    → Inv (with_list p is (finish_leave env i false w))
unfolding finish_leave
ended_or_not env i p is c w d e z v = elim (Bool-cases (is_deserted c)) [
  | inr b ↦ rw (e, finish_leave, b) v
  | inl b ↦
      rw (e, finish_leave, b)
        (Same-Inv (disband-with_list env i p is c w d e z) (
          disband-Inv env i c (with_list p is w) (with_list-parties p is i w ∙ e) (d _ i)
            (Inv-but i _ v)))
]

-- While `p` still holds an invitation of `i`, that party is there and has `p` on its list, once.
still_invited :
    (i p : ℕ) (is : List ℕ) (w : World)
    → Inv (with_list p (i ∷ is) w)
    → (c : Party) × (w.parties i ≡ some c)
      × (elem p c.invite_list ≡ true)
      × (count p (erase p c.invite_list) ≡ 0)
unfolding with_list put_player
still_invited i p is w v = elim (Option-cases (w.parties i)) [
  | inl e ↦ absurd (ground (arith, v.invited_holds i p, count-cons i i is))
  | inr (c, e) ↦
      let held : count p c.invite_list ≡ 1 =
        ground (arith, v.invited_holds i p, v.apart i p, count-cons i i is) in
      (
        c,
        e,
        ground (arith, held, elem-count p c.invite_list),
        ground (arith, held, count-erase p p c.invite_list),
      )
]

each_step :
    (env : Env) (i p : ℕ) (is : List ℕ) (w : World)
    → Disbands env
    → Inv (with_list p (i ∷ is) w)
    → Inv (with_list p is (remove_invite env i p false w).0)
unfolding remove_invite
each_step env i p is w d v =
    let (c, e, f, z) = still_invited i p is w v in
    let c' : Party = record c { invite_list = erase p c.invite_list } in
    let w' = put_party i (some c') w in
    rw (e, remove_invite, f)
      (ended_or_not env i p is c' w' d (put_party_self i c' w) z (one_less i p is c w e f v))

each_inviting-Inv :
    (env : Env) (p : ℕ) (is : List ℕ) (w : World)
    → Disbands env
    → Inv (with_list p is w)
    → Inv (with_list p [] (each_inviting env p is w))
unfolding each_inviting
each_inviting-Inv env p [] w d v = v
each_inviting-Inv env p (i ∷ is) w d v =
    each_inviting-Inv env p is (remove_invite env i p false w).0 d (each_step env i p is w d v)

-- To put back the own list changes nothing.
with_list-Same : (p : ℕ) (w : World) → Same w (with_list p (w.players p).invite_party_list w)
unfolding with_list put_player
with_list-Same p w = record {
  parties_of = λ q. ground arith;
  held = λ j q. ground arith;
  rosters = λ j q. refl;
  invitations = λ j q. refl;
  next = refl;
  gone = λ j h. h;
}

pub clear_invitations-Inv :
    (env : Env) (p : ℕ) (w : World) → Disbands env → Inv w → Inv (clear_party_invitations env p w)
unfolding clear_party_invitations with_list
clear_invitations-Inv env p w d v =
    each_inviting-Inv env p (w.players p).invite_party_list w d (Same-Inv (with_list-Same p w) v)

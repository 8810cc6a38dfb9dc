-- ===== src/Party/Calls/History.antt =====
-- Every event keeps the invariant, and so does every history.
use otchronos.Prelude.{
  ℕ, ◌≡◌, List, [], ◌∷◌, none, Bool, false, ◌==◌, ◌∙◌, arith, Option-cases, inl, inr, if-both, true,
  elem, count-cons, count-nil,
}
use otchronos.Party.State.{World, Env, set_party, put_party, put_player}
use otchronos.Party.Inv.{Inv}
use otchronos.Party.Same.{Same-Inv, set_shared-Same, record_points-Same}
use otchronos.Party.Keep.{Disbands, pass-Inv}
use otchronos.Party.Leave.{leave-Inv}
use otchronos.Party.Invite.{remove_invite-Inv, join-Inv, invite-Inv, new_party-Inv}
use otchronos.Party.Logout.{clear_invitations-Inv}
use otchronos.Party.{
  add_heal, add_damage, add_player_healed_member, add_player_damage_monster, revoke_invitation,
  new_party, clear_party_invitations, invite_player, add_party_invitation,
}
use otchronos.Party.Calls.{
  Event, invites, joins, revokes, passes, leaves, logs_out, enables, heals, damages,
  player_invite_to_party, player_join_party, player_revoke_party_invitation,
  player_pass_party_leadership, player_leave_party, player_enable_shared_party_experience,
  leave_own_party, log_out, step, run, leads, is_inviting,
}

other_party :
    (p q : ℕ) (w : World)
    → (p == q) ≡ false
    → ((new_party p w).players q).party ≡ (w.players q).party
unfolding new_party set_party put_party
other_party p q w h = ground arith

-- With a further player than oneself invited, `Game::playerInviteToParty` keeps the invariant.
invite_to-Inv :
    (p q : ℕ) (w : World) → (p == q) ≡ false → Inv w → Inv (player_invite_to_party p q w)
unfolding player_invite_to_party
invite_to-Inv p q w h v = elim (Option-cases (w.players q).party) [
  | inr (i, e) ↦ rw (e, player_invite_to_party) (if-both Inv _ v v)
  | inl e ↦ elim (Option-cases (w.players p).party) [
    | inl f ↦
        let made =
          invite-Inv w.next_party q (new_party p w) (other_party p q w h ∙ e)
            (new_party-Inv p w f v) in
        rw (e, player_invite_to_party, f) (if-both Inv _ v made)
    | inr (i, f) ↦
        let made = invite-Inv i q w e v in
        rw (e, player_invite_to_party, f) (if-both Inv _ v (if-both Inv _ v made))
  ]
]

join_to-Inv : (env : Env) (p l : ℕ) (w : World) → Inv w → Inv (player_join_party env p l w)
unfolding player_join_party
join_to-Inv env p l w v = elim (Option-cases (w.players l).party) [
  | inl e ↦ rw (e, player_join_party) (if-both Inv _ v v)
  | inr (i, e) ↦ elim (Option-cases (w.players p).party) [
    | inr (j, f) ↦ rw (e, player_join_party, f) (if-both Inv _ v (if-both Inv _ v v))
    | inl f ↦
        let joined = join-Inv env i p w f v in
        rw (e, player_join_party, f) (if-both Inv _ v (if-both Inv _ v joined))
  ]
]

module _ (env : Env) (d : Disbands env) where
  revoke_to-Inv : (p q : ℕ) (w : World) → Inv w → Inv (player_revoke_party_invitation env p q w)
  unfolding player_revoke_party_invitation revoke_invitation
  revoke_to-Inv p q w v = elim (Option-cases (w.players p).party) [
    | inl e ↦ rw (e, player_revoke_party_invitation) v
    | inr (i, e) ↦
        let revoked = remove_invite-Inv env i q w d v in
        rw (e, player_revoke_party_invitation) (if-both Inv _ v revoked)
  ]

  pass_to-Inv : (p q : ℕ) (w : World) → Inv w → Inv (player_pass_party_leadership env p q w)
  unfolding player_pass_party_leadership
  pass_to-Inv p q w v = elim (Option-cases (w.players p).party) [
    | inl e ↦ rw (e, player_pass_party_leadership) v
    | inr (i, e) ↦
        let passed = pass-Inv env i q w v in
        rw (e, player_pass_party_leadership) (if-both Inv _ v passed)
  ]

  leave_it-Inv : (p : ℕ) (w : World) → Inv w → Inv (player_leave_party env p w)
  unfolding player_leave_party
  leave_it-Inv p w v = elim (Option-cases (w.players p).party) [
    | inl e ↦ rw (e, player_leave_party) v
    | inr (i, e) ↦
        let left = leave-Inv env i p w d v in rw (e, player_leave_party) (if-both Inv _ v left)
  ]

  enable-Inv :
      (p : ℕ) (b : Bool) (w : World) → Inv w → Inv (player_enable_shared_party_experience env p b w)
  unfolding player_enable_shared_party_experience
  enable-Inv p b w v = elim (Option-cases (w.players p).party) [
    | inl e ↦ rw (e, player_enable_shared_party_experience) v
    | inr (i, e) ↦
        let set = Same-Inv (set_shared-Same env i p b w) v in
        rw (e, player_enable_shared_party_experience) (if-both Inv _ v set)
  ]

  log_out-Inv : (p : ℕ) (w : World) → Inv w → Inv (log_out env p w)
  unfolding log_out leave_own_party
  log_out-Inv p w v = own (clear_party_invitations env p w) (clear_invitations-Inv env p w d v)
    where
      own : (u : World) → Inv u → Inv (leave_own_party env p u)
      own u uv = elim (Option-cases (u.players p).party) [
        | inl e ↦ rw (e, leave_own_party) uv
        | inr (i, e) ↦ rw (e, leave_own_party) (leave-Inv env i p u d uv)
      ]

-- An event in which nobody invites himself.
abbrev pub OthersOnly : Event → Type 0
OthersOnly (invites p q) = (p == q) ≡ false
OthersOnly _ = Unit {0}

-- Every event keeps the lists of the parties and the entries of the players in agreement, if no
-- script stops a party from disbanding and nobody invites himself.
pub step-Inv :
    (env : Env) (w : World) (e : Event) → Disbands env → OthersOnly e → Inv w → Inv (step env w e)
unfolding step add_player_healed_member add_player_damage_monster
step-Inv env w (invites p q) d o v = invite_to-Inv p q w o v
step-Inv env w (joins p l) d o v = join_to-Inv env p l w v
step-Inv env w (revokes p q) d o v = revoke_to-Inv env d p q w v
step-Inv env w (passes p q) d o v = pass_to-Inv env d p q w v
step-Inv env w (leaves p) d o v = leave_it-Inv env d p w v
step-Inv env w (logs_out p) d o v = log_out-Inv env d p w v
step-Inv env w (enables p b) d o v = enable-Inv env d p b w v
step-Inv env w (heals i p n) d o v = Same-Inv (record_points-Same add_heal env i p n w) v
step-Inv env w (damages i p n) d o v = Same-Inv (record_points-Same add_damage env i p n w) v

abbrev pub AllOthersOnly : List Event → Type 0
AllOthersOnly [] = Unit {0}
AllOthersOnly (e ∷ es) = OthersOnly e × AllOthersOnly es

-- So does every history of such events.
pub run-Inv :
    (env : Env) (w : World) (es : List Event)
    → Disbands env
    → AllOthersOnly es
    → Inv w
    → Inv (run env w es)
unfolding run
run-Inv env w [] d o v = v
run-Inv env w (e ∷ es) d o v = run-Inv env (step env w e) es d o.1 (step-Inv env w e d o.0 v)

-- A player with no party who invites himself leads the new party and is invited by it at once, so
-- the agreement is lost: `Game::playerInviteToParty` does not ask whether the two are one.
pub invite_oneself :
    (p : ℕ) (w : World)
    → w.online p ≡ true
    → (w.players p).party ≡ none
    → Inv w
    → ¬ Inv (player_invite_to_party p p w)
unfolding player_invite_to_party new_party invite_player add_party_invitation put_party set_party
    put_player is_inviting leads elem
invite_oneself p w o e v bad = ground (
  arith,
  e,
  o,
  bad.roster_belongs w.next_party p,
  bad.invited_holds w.next_party p,
  bad.apart w.next_party p,
  count-cons p p [],
  count-nil p,
)

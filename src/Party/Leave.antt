-- ===== src/Party/Leave.antt =====
-- `Party::leaveParty` and the ways in and out of the invitation list keep the invariant.
use otchronos.Prelude.{
  ℕ, ◌≡◌, refl, List, [], ◌∷◌, some, true, false, not, ◌&&◌, ◌==◌, if◌then◌else◌, arith, count,
  count-cons, erase, Option-cases, Bool-cases, inl, inr, is_empty,
}
use otchronos.Party.State.{Party, World, Env, in_party, put_party}
use otchronos.Party.Inv.{Inv, belongs}
use otchronos.Party.Same.{Same-Inv, Same-InvBut, Same-trans, update-Same, clear-Same}
use otchronos.Party.Keep.{
  Disbands, finish_leave-Inv, finish_leave-restores, pass-Inv, dropped-Inv, dropped-InvBut,
}
use otchronos.Party.{
  refresh, update_shared_experience, pass_party_leadership, pass_to_front, missing_leader, drop_out,
  leave_party,
}

-- A member to whom the leadership passes has it, and no player's own entry changes.
passed-leader :
    (env : Env) (i m : ℕ) (c : Party) (w : World)
    → w.parties i ≡ some c
    → (c.leader == m) ≡ false
    → in_party i (w.players m) ≡ true
    → let w' = (pass_party_leadership env i m w).0 in
      (c' : Party) × (w'.parties i ≡ some c')
      × (c'.leader ≡ m)
      × ((q : ℕ) → w'.players q ≡ w.players q)
unfolding pass_party_leadership update_shared_experience put_party refresh
passed-leader env i m c w e l b =
    let c₁ : Party = record c { leader = m; member_list = c.leader ∷ erase m c.member_list } in
    let w₁ = put_party i (some c₁) w in
    (refresh env w₁ c₁, ground arith, ground arith, λ q. ground arith)

-- After the pass the old leader is an ordinary member.
passed_on :
    (env : Env) (i p : ℕ) (c : Party) (w : World) (ms : List ℕ)
    → w.parties i ≡ some c
    → (c.leader == p) ≡ true
    → c.member_list ≡ ms
    → is_empty ms ≡ false
    → Inv w
    → let w' = pass_to_front env i ms w in
      (c' : Party) × (w'.parties i ≡ some c')
      × ((c'.leader == p) ≡ false)
      × (in_party i (w'.players p) ≡ true)
unfolding pass_to_front
passed_on env i p c w [] e l m n v = cc
passed_on env i p c w (m ∷ ms) e l f n v =
    let (c', e', l', keep) = passed-leader env i m c w e differs joined in
    (c', e', ground (arith, differs), rw (keep p) here)
  where
    both : count m (c.leader ∷ c.member_list) ≡ belongs i m w
    both = ground (arith, v.roster_belongs i m)

    differs : (c.leader == m) ≡ false
    differs = ground (arith, both, count-cons m c.leader (m ∷ ms), count-cons m m ms)

    joined : in_party i (w.players m) ≡ true
    joined = ground (arith, both, count-cons m c.leader (m ∷ ms), count-cons m m ms)

    here : in_party i (w.players p) ≡ true
    here = ground (arith, v.roster_belongs i p, count-cons p c.leader c.member_list)

left-Inv :
    (env : Env) (i p : ℕ) (c : Party) (w : World)
    → Disbands env
    → w.parties i ≡ some c
    → (c.leader == p) ≡ false
    → in_party i (w.players p) ≡ true
    → Inv w
    → Inv (drop_out env i p false w)
unfolding drop_out
left-Inv env i p c w d e l b v = finish_leave-Inv env i false _ d (
    Same-Inv (Same-trans (update-Same env i _) (clear-Same env i p _))
      (dropped-Inv i p c w e l b v))

ended-Inv :
    (env : Env) (i p : ℕ) (c : Party) (w : World)
    → Disbands env
    → w.parties i ≡ some c
    → (c.leader == p) ≡ true
    → Inv w
    → Inv (drop_out env i p true w)
unfolding drop_out
ended-Inv env i p c w d e l v = finish_leave-restores env i _ d (
    Same-InvBut (Same-trans (update-Same env i _) (clear-Same env i p _))
      (dropped-InvBut i p c w e l v))

pass_to_front-Inv :
    (env : Env) (i : ℕ) (ms : List ℕ) (w : World) → Inv w → Inv (pass_to_front env i ms w)
unfolding pass_to_front
pass_to_front-Inv env i [] w v = v
pass_to_front-Inv env i (m ∷ ms) w v = pass-Inv env i m w v

has_follower :
    (p : ℕ) (c : Party)
    → (c.leader == p) ≡ true
    → missing_leader p c ≡ false
    → is_empty c.member_list ≡ false
unfolding missing_leader
has_follower p c l m = ground arith

leads_it : (p : ℕ) (c : Party) → missing_leader p c ≡ true → (c.leader == p) ≡ true
unfolding missing_leader
leads_it p c m = ground arith

leave_allowed :
    (env : Env) (i p : ℕ) (c : Party) (w : World)
    → Disbands env
    → w.parties i ≡ some c
    → (not (in_party i (w.players p)) && not (c.leader == p)) ≡ false
    → Inv w
    → let missing = missing_leader p c in
      Inv (
        drop_out env i p missing
          (if c.leader == p && not missing then pass_to_front env i c.member_list w else w))
leave_allowed env i p c w d e t v = elim (Bool-cases (missing_leader p c)) [
  | inl m ↦ let l = leads_it p c m in rw (m, l) (ended-Inv env i p c w d e l v)
  | inr m ↦ elim (Bool-cases (c.leader == p)) [
    | inr l ↦ rw (m, l) (left-Inv env i p c w d e l (ground arith) v)
    | inl l ↦
        let (c', e', l', b') =
          passed_on env i p c w c.member_list e l refl (has_follower p c l m) v in
        rw (m, l) (left-Inv env i p c' _ d e' l' b' (pass_to_front-Inv env i c.member_list w v))
  ]
]

pub leave-Inv :
    (env : Env) (i p : ℕ) (w : World) → Disbands env → Inv w → Inv (leave_party env i p w).0
unfolding leave_party
leave-Inv env i p w d v = elim (Option-cases (w.parties i)) [
  | inl e ↦ rw (e, leave_party) v
  | inr (c, e) ↦ elim (Bool-cases (not (in_party i (w.players p)) && not (c.leader == p))) [
    | inl t ↦ rw (e, leave_party, t) v
    | inr t ↦ elim (Bool-cases (not (env.on_leave w i p))) [
      | inl a ↦ rw (e, leave_party, t, a) v
      | inr a ↦ rw (e, leave_party, t, a) (leave_allowed env i p c w d e t v)
    ]
  ]
]

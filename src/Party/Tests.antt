-- ===== src/Party/Tests.antt =====
-- Worlds in which the theorems on parties are applied.
use otchronos.Prelude.{◌*◌, ◌≤◌, ◌≡◌, refl, [], ◌∷◌, none, some, true, false, arith, count}
use otchronos.Party.State.{Player, Party, World, Env}
use otchronos.Party.Inv.{Inv, belongs}
use otchronos.Party.Keep.{Disbands}
use otchronos.Party.{can_enable_shared_experience, disband, pass_party_leadership}
use otchronos.Party.Shared.{can_enable-levels}
use otchronos.Party.Effects.{pass_party_leadership_lem, disband_lem}
use otchronos.Party.Calls.{invites, joins, leaves, logs_out, player_invite_to_party, step, run}
use otchronos.Party.Calls.History.{step-Inv, run-Inv, invite_oneself}

abbrev calm : Env
calm = record {
  on_join = λ w i p. true;
  on_leave = λ w i p. true;
  on_disband = λ w i. true;
  pz_locked = 60000;
}

abbrev idler : Player
idler = record {
  party = none;
  invite_party_list = [];
  level = 8;
  position = record { x = 100; y = 100; z = 7 };
  not_gain_in_fight = true;
  in_fight = false;
}

abbrev quiet : World
quiet = record {
  players = λ p. idler;
  parties = λ i. none;
  next_party = 0;
  online = λ p. true;
  now = 0;
}

calm-Disbands : Disbands calm
calm-Disbands w i = refl

quiet-Inv : Inv quiet
unfolding count
quiet-Inv = record {
  roster_belongs = λ i p. refl;
  invited_holds = λ i p. refl;
  apart = λ i p. omega arith;
  unmade = λ i h. refl;
}

-- Player 1 leads party 0, and player 2 is in it.
paired : World
paired = run calm quiet (invites 1 2 ∷ joins 2 1 ∷ [])

paired-Inv : Inv paired
unfolding paired
paired-Inv = run-Inv calm quiet _ calm-Disbands (refl, (tt, tt)) quiet-Inv

pair : Party
pair = record {
  point_map = [];
  member_list = 2 ∷ [];
  invite_list = [];
  leader = 1;
  shared_exp_active = false;
  shared_exp_enabled = false;
}

paired_party : paired.parties 0 ≡ some pair
unfolding paired pair run
paired_party = refl

run-Inv_example :
    Inv (run calm quiet (invites 1 2 ∷ invites 1 3 ∷ joins 2 1 ∷ leaves 1 ∷ logs_out 3 ∷ []))
run-Inv_example =
    run-Inv calm quiet (invites 1 2 ∷ invites 1 3 ∷ joins 2 1 ∷ leaves 1 ∷ logs_out 3 ∷ [])
      calm-Disbands (refl, (refl, (tt, (tt, (tt, tt))))) quiet-Inv

step-Inv_example : Inv (step calm paired (leaves 1))
step-Inv_example = step-Inv calm paired (leaves 1) calm-Disbands tt paired-Inv

invite_oneself_example : ¬ Inv (player_invite_to_party 1 1 quiet)
invite_oneself_example = invite_oneself 1 quiet refl refl quiet-Inv

pass_party_leadership_lem_example : (pass_party_leadership calm 0 2 paired).1 ≡ true
unfolding paired pair run
pass_party_leadership_lem_example =
    (pass_party_leadership_lem calm 0 2 pair paired paired_party refl refl paired-Inv).0

disband_lem_example : belongs 0 2 (disband calm 0 paired) ≡ 0
disband_lem_example = (disband_lem calm 0 pair paired 2 paired_party refl paired-Inv).1

can_enable-levels_example : (paired.players 2).level * 2 ≤ (paired.players 1).level * 3
unfolding pair paired run can_enable_shared_experience count
can_enable-levels_example =
    (can_enable-levels calm paired pair 1 2 refl (omega arith) (omega arith)).1

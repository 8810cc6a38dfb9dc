-- ===== src/Chat/Tests.antt =====
-- A chat with a private channel.
use otchronos.Prelude.{◌≡◌, refl, some, none, true, false, [], ◌∷◌, elem, arith}
use otchronos.Chat.{Chat, Env, is_invited}
use otchronos.Chat.Calls.{open_channel, leave_game, call, meets_own}
use otchronos.Chat.Private.{intruder, intrudes, IsPrivate}
use otchronos.Chat.Members.{leaves_own, call-IsPrivate}
use otchronos.Chat.Leave.{present, leave_game-present}

abbrev plain_env : Env
plain_env = record {
  guild = λ p. none;
  party = λ p. none;
  is_premium = λ p. true;
  can_join = λ id p. true;
  on_join = λ id p. true;
}

-- Player 1 has a channel of his own, to which player 2 is invited; both use channel 7, and player 2
-- talks to player 1.
abbrev talking : Chat
talking = record {
  normal_channels = (7, 1 ∷ 2 ∷ []) ∷ [];
  guild_channels = [];
  party_channels = [];
  private_channels = record { id = 100; owner = 1; invites = 2 ∷ []; users = 1 ∷ 2 ∷ [] } ∷ [];
}

talking-IsPrivate : IsPrivate talking
unfolding intrudes intruder is_invited elem
talking-IsPrivate u = ground arith

-- Player 3 is not invited.
call-IsPrivate_example :
    (d : Chat) × (call plain_env (open_channel 3 100) talking ≡ some d) × IsPrivate d
unfolding leaves_own
call-IsPrivate_example =
    call-IsPrivate plain_env (open_channel 3 100) talking talking-IsPrivate refl

-- Player 1 owns a channel.
undefined_test : call plain_env (leave_game 1) talking ≡ none
unfolding call meets_own
undefined_test = refl

two_leaves : meets_own 2 talking.private_channels ≡ false
unfolding meets_own
two_leaves = refl

leave_game-present_example : present 2 (leave_game-present plain_env 2 talking two_leaves).0 ≡ false
leave_game-present_example = (leave_game-present plain_env 2 talking two_leaves).2

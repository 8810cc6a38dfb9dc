-- ===== src/Chat/Leave.antt =====
-- That a player who leaves the game is gone from all channels.
use otchronos.Prelude.{
  ℕ, some, ◌≡◌, refl, Bool, false, ◌==◌, ◌||◌, if◌then◌else◌, List, [], ◌∷◌, elem, arith, ==-refl,
}
use otchronos.Chat.{PrivateChannel, Channels, Chat, Env, remove_invited}
use otchronos.Chat.Calls.{
  leave_each, leave_private, meets_own, remove_user_from_all_channels, leave_game, call,
}
use otchronos.Chat.Private.{elem-remove}

-- Whether a player is a user of a channel of a map.
unfoldable pub uses : ℕ → Channels → Bool
uses player [] = false
uses player ((k, us) ∷ cs) = elem player us || uses player cs

-- Whether a player is the owner of a private channel, is invited to one, or uses one.
unfoldable pub has_part : ℕ → List PrivateChannel → Bool
has_part player [] = false
has_part player (p ∷ cs) =
    (p.owner == player || (elem player p.invites || elem player p.users)) || has_part player cs

-- Whether a player is known to any channel.
unfoldable pub present : ℕ → Chat → Bool
unfolding uses has_part
present player c =
    (uses player c.normal_channels || uses player c.guild_channels)
    || (uses player c.party_channels || has_part player c.private_channels)

uses-leave_each :
    (u player : ℕ) (cs : Channels)
    → uses u (leave_each player cs) ≡ (if player == u then false else uses u cs)
unfolding uses leave_each
uses-leave_each u player [] = ground arith
uses-leave_each u player ((k, us) ∷ cs) =
    ground (arith, uses-leave_each u player cs, elem-remove u player us)

has_part-leave_private :
    (u player : ℕ) (cs : List PrivateChannel)
    → meets_own player cs ≡ false
    → has_part u (leave_private player cs) ≡ (if player == u then false else has_part u cs)
unfolding has_part leave_private remove_invited meets_own
has_part-leave_private u player [] h = ground arith
has_part-leave_private u player (p ∷ cs) h = ground (
  arith,
  h,
  has_part-leave_private u player cs,
  elem-remove u player p.users,
  elem-remove u player p.invites,
)

-- Who uses the channels of a map once a player has left them.
abbrev pub Without : ℕ → Channels → Channels → Type 0
Without player cs ds = (u : ℕ) → uses u ds ≡ (if player == u then false else uses u cs)

-- A player who leaves the game and owns no private channel is known to no channel afterwards, be it as a user, as an
-- invited player or as an owner; and every other player uses normal channels, and those of guilds
-- and parties, and has a part in private ones, just as before.
pub leave_game-present :
    (env : Env) (player : ℕ) (c : Chat)
    → meets_own player c.private_channels ≡ false
    → (d : Chat) × (call env (leave_game player) c ≡ some d)
      × (present player d ≡ false)
      × Without player c.normal_channels d.normal_channels
      × Without player c.guild_channels d.guild_channels
      × Without player c.party_channels d.party_channels
      × ((u : ℕ)
          → has_part u d.private_channels
            ≡ (if player == u then false else has_part u c.private_channels))
unfolding present call remove_user_from_all_channels
leave_game-present env player c h =
    let d : Chat = record {
      normal_channels = leave_each player c.normal_channels;
      guild_channels = leave_each player c.guild_channels;
      party_channels = leave_each player c.party_channels;
      private_channels = leave_private player c.private_channels;
    } in
    (
      d,
      rw (remove_user_from_all_channels, h) refl,
      ground (
        arith,
        ==-refl player,
        uses-leave_each player player c.normal_channels,
        uses-leave_each player player c.guild_channels,
        uses-leave_each player player c.party_channels,
        has_part-leave_private player player c.private_channels h,
      ),
      λ u. uses-leave_each u player c.normal_channels,
      λ u. uses-leave_each u player c.guild_channels,
      λ u. uses-leave_each u player c.party_channels,
      λ u. has_part-leave_private u player c.private_channels h,
    )

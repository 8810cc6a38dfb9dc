-- ===== src/Chat/Calls.antt =====
-- The methods of `Chat` over all channels, and the handlers of game.cpp.
use otchronos.Prelude.{
  ℕ, zero, suc, ◌+◌, Option, none, some, Bool, true, false, ◌==◌, ◌||◌, not, if◌then◌else◌, List,
  [], ◌∷◌, ◌++◌, remove,
}
use otchronos.Chat.{
  PrivateChannel, Channels, Chat, Env, channel_guild, channel_party, channel_private, ChannelRef,
  guild, party, private, find_users, put_users, erase_channel, find_private, change_private,
  erase_private, has_id, is_owner, add_invited, remove_invited, drop_user, exclude_player,
  get_channel, add_user, remove_user,
}

-- `Chat::getPrivateChannel`.
unfoldable pub get_private_channel : ℕ → Chat → Option PrivateChannel
unfolding find_private
get_private_channel player c = find_private (is_owner player) c.private_channels

-- The loop that looks for a free id of a private channel, with the numbers of it left.
unfoldable pub free_id : ℕ → ℕ → List PrivateChannel → Option ℕ
unfolding find_private
free_id zero i cs = none
free_id (suc left) i cs =
    let rest = free_id left (i + 1) cs in
    elim (find_private (has_id i) cs) [ none ↦ some i | some p ↦ rest ]

-- `privateChannels[i] = newChannel`, for an owner.
unfoldable pub new_private : ℕ → ℕ → Chat → Chat
new_private i player c = record c {
  private_channels =
      c.private_channels ++ record { id = i; owner = player; invites = []; users = [] } ∷ [];
}

-- The three cases of `Chat::createChannel`: the channel of the player's guild, of the player's
-- party, and a private channel.
unfoldable pub create_guild_channel : Option ℕ → Chat → Chat × Option ChannelRef
unfolding put_users
create_guild_channel none c = (c, none)
create_guild_channel (some g) c =
    (record c { guild_channels = put_users g [] c.guild_channels }, some (guild g))

unfoldable pub create_party_channel : Option ℕ → Chat → Chat × Option ChannelRef
unfolding put_users
create_party_channel none c = (c, none)
create_party_channel (some p) c =
    (record c { party_channels = put_users p [] c.party_channels }, some (party p))

unfoldable pub create_private_channel : Bool → ℕ → Chat → Chat × Option ChannelRef
unfolding get_private_channel free_id new_private
create_private_channel premium player c =
    if not premium then (c, none) else elim (get_private_channel player c) [
      | some p ↦ (c, none)
      | none ↦ elim (free_id 9900 100 c.private_channels) [
        | none ↦ (c, none)
        | some i ↦ (new_private i player c, some (private i))
      ]
    ]

module _ (env : Env) where
  -- `Chat::createChannel`.
  unfoldable pub create_channel : ℕ → ℕ → Chat → Chat × Option ChannelRef
  unfolding get_channel create_guild_channel create_party_channel create_private_channel
  create_channel player id c = elim (get_channel env player id c) [
    | some r ↦ (c, none)
    | none ↦
        if id == channel_guild
        then create_guild_channel (env.guild player) c
        else if id == channel_party
        then create_party_channel (env.party player) c
        else if id == channel_private
        then create_private_channel (env.is_premium player) player c
        else (c, none)
  ]

  -- `Chat::deleteChannel`.
  unfoldable pub delete_channel : ℕ → ℕ → Chat → Chat × Bool
  unfolding find_users erase_channel find_private erase_private
  delete_channel player id c =
      if id == channel_guild
      then elim (env.guild player) [
        | none ↦ (c, false)
        | some g ↦ elim (find_users g c.guild_channels) [
          | none ↦ (c, false)
          | some us ↦ (record c { guild_channels = erase_channel g c.guild_channels }, true)
        ]
      ]
      else if id == channel_party
      then elim (env.party player) [
        | none ↦ (c, false)
        | some p ↦ elim (find_users p c.party_channels) [
          | none ↦ (c, false)
          | some us ↦ (record c { party_channels = erase_channel p c.party_channels }, true)
        ]
      ]
      else elim (find_private (has_id id) c.private_channels) [
        | none ↦ (c, false)
        | some p ↦ (record c { private_channels = erase_private id c.private_channels }, true)
      ]

  -- `Chat::addUserToChannel`.
  unfoldable pub add_user_to_channel : ℕ → ℕ → Chat → Chat × Option ChannelRef
  unfolding get_channel add_user
  add_user_to_channel player id c = elim (get_channel env player id c) [
    | none ↦ (c, none)
    | some r ↦ let (c', added) = add_user env player r c in (c', if added then some r else none)
  ]

  -- Whether a player owns the channel: the owner of one that is not private is 0.
  unfoldable pub owns : ℕ → ChannelRef → Chat → Bool
  unfolding find_private
  owns player (private id) c = elim (find_private (has_id id) c.private_channels) [
    | none ↦ false
    | some p ↦ p.owner == player
  ]
  owns player r c = player == 0

  -- `Chat::removeUserFromChannel`.
  unfoldable pub remove_user_from_channel : ℕ → ℕ → Chat → Chat × Bool
  unfolding get_channel remove_user owns delete_channel
  remove_user_from_channel player id c = elim (get_channel env player id c) [
    | none ↦ (c, false)
    | some r ↦
        let (c', removed) = remove_user env player r c in
        if not removed
        then (c', false)
        else if owns player r c'
        then ((delete_channel player id c').0, true)
        else (c', true)
  ]

-- `removeUser` in each channel of a map.
unfoldable pub leave_each : ℕ → Channels → Channels
leave_each player [] = []
leave_each player ((k, us) ∷ cs) = (k, remove player us) ∷ leave_each player cs

-- The loop over the private channels, which takes the player off each of them.
unfoldable pub leave_private : ℕ → List PrivateChannel → List PrivateChannel
unfolding remove_invited
leave_private player [] = []
leave_private player (p ∷ cs) = drop_user player (remove_invited player p) ∷ leave_private player cs

-- Whether the loop comes to a channel of the player's own.
unfoldable pub meets_own : ℕ → List PrivateChannel → Bool
meets_own player [] = false
meets_own player (p ∷ cs) = p.owner == player || meets_own player cs

-- `Chat::removeUserFromAllChannels`. The source erases a channel of the player's own from the map over which the
-- loop goes, and goes on from the entry that is gone: that is undefined, and here `none`.
unfoldable pub remove_user_from_all_channels : ℕ → Chat → Option Chat
unfolding leave_each leave_private meets_own
remove_user_from_all_channels player c =
    if meets_own player c.private_channels
    then none
    else some (record {
      normal_channels = leave_each player c.normal_channels;
      guild_channels = leave_each player c.guild_channels;
      party_channels = leave_each player c.party_channels;
      private_channels = leave_private player c.private_channels;
    })

-- What players do: `Game::playerCreatePrivateChannel`, `Game::playerChannelInvite`,
-- `Game::playerChannelExclude`, `Game::playerOpenChannel`, `Game::playerCloseChannel`, and leaving
-- the game; the guild and the party channel are made when the list of channels is sent.
pub data Call : Type 0 where
  create_private : ℕ → Call
  invite exclude : ℕ → ℕ → Call
  open_channel close_channel : ℕ → ℕ → Call
  list_channels : ℕ → Call
  leave_game : ℕ → Call

module _ (env : Env) where
  -- `channel->addUser(*player)`, where a channel was made.
  unfoldable pub join_made : ℕ → Chat × Option ChannelRef → Chat
  unfolding add_user
  join_made player (c, none) = c
  join_made player (c, some r) = (add_user env player r c).0

  -- `Game::playerCreatePrivateChannel`.
  unfoldable pub player_create_private_channel : ℕ → Chat → Chat
  unfolding create_channel join_made
  player_create_private_channel player c =
      if not (env.is_premium player)
      then c
      else join_made player (create_channel env player channel_private c)

  -- A channel of the guild or the party, made where there is none.
  unfoldable pub make_channel : ℕ → ℕ → Option ℕ → Chat → Chat
  unfolding create_channel
  make_channel player id none c = c
  make_channel player id (some k) c = (create_channel env player id c).0

  -- The channels that `Chat::getChannelList` makes on its way.
  unfoldable pub make_channels : ℕ → Chat → Chat
  unfolding make_channel
  make_channels player c =
      make_channel player channel_party (env.party player)
        (make_channel player channel_guild (env.guild player) c)

  -- What a player does; `none` where the behaviour is undefined.
  unfoldable pub call : Call → Chat → Option Chat
  unfolding player_create_private_channel make_channels add_user_to_channel remove_user_from_channel
      remove_user_from_all_channels
  call (create_private player) c = some (player_create_private_channel player c)
  call (invite player other) c = some (
      if player == other then c else record c {
        private_channels = change_private (is_owner player) (add_invited other) c.private_channels;
      })
  call (exclude player other) c = some (
      if player == other then c else record c {
        private_channels =
            change_private (is_owner player) (exclude_player other) c.private_channels;
      })
  call (open_channel player id) c = some (add_user_to_channel env player id c).0
  call (close_channel player id) c = some (remove_user_from_channel env player id c).0
  call (list_channels player) c = some (make_channels player c)
  call (leave_game player) c = remove_user_from_all_channels player c

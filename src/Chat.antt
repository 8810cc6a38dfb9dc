-- ===== src/Chat.antt =====
-- The chat, chat.cpp and chat.h, and the handlers of game.cpp that use it. A player is a number,
-- for `getID` and `getGUID` alike, and a map of players is the list of its keys. Messages to
-- clients are left out.
mod Calls
mod Private
mod Creation
mod Members
mod Leave
mod Tests
use otchronos.Prelude.{
  ℕ, zero, suc, ◌+◌, Option, none, some, Bool, true, false, ◌==◌, ◌||◌, ◌&&◌, not, if◌then◌else◌,
  ltb, List, [], ◌∷◌, ◌++◌, elem, remove,
}

-- `PrivateChatChannel`.
pub record PrivateChannel : Type 0 where
  pub id : ℕ
  pub owner : ℕ
  pub invites : List ℕ
  pub users : List ℕ

-- The users of the channels of one kind, by the id of the channel, the guild or the party.
abbrev pub Channels : Type 0
Channels = List (ℕ × List ℕ)

pub record Chat : Type 0 where
  pub normal_channels : Channels
  pub guild_channels : Channels
  pub party_channels : Channels
  pub private_channels : List PrivateChannel

-- What the chat asks of players and scripts: guild, party, premium time, the scripts of a channel.
pub record Env : Type 0 where
  pub guild : ℕ → Option ℕ
  pub party : ℕ → Option ℕ
  pub is_premium : ℕ → Bool
  pub can_join : ℕ → ℕ → Bool
  pub on_join : ℕ → ℕ → Bool

-- CHANNEL_GUILD, CHANNEL_PARTY, and CHANNEL_PRIVATE.
abbrev pub channel_guild : ℕ
channel_guild = 0

abbrev pub channel_party : ℕ
channel_party = 1

abbrev pub channel_private : ℕ
channel_private = 0xffff

-- A channel, as a pointer to it tells it from the others.
pub data ChannelRef : Type 0 where
  normal guild party private : ℕ → ChannelRef

-- `find` in a map of channels, `map[key] = …`, and `erase`.
unfoldable pub find_users : ℕ → Channels → Option (List ℕ)
find_users k [] = none
find_users k ((j, us) ∷ cs) = if j == k then some us else find_users k cs

unfoldable pub put_users : ℕ → List ℕ → Channels → Channels
put_users k us [] = (k, us) ∷ []
put_users k us ((j, vs) ∷ cs) = if j == k then (k, us) ∷ cs else (j, vs) ∷ put_users k us cs

unfoldable pub erase_channel : ℕ → Channels → Channels
erase_channel k [] = []
erase_channel k ((j, us) ∷ cs) = if j == k then cs else (j, us) ∷ erase_channel k cs

-- The first private channel that passes a test, and a change of it.
unfoldable pub find_private : (PrivateChannel → Bool) → List PrivateChannel → Option PrivateChannel
find_private f [] = none
find_private f (c ∷ cs) = if f c then some c else find_private f cs

unfoldable pub change_private :
    (PrivateChannel → Bool)
    → (PrivateChannel → PrivateChannel)
    → List PrivateChannel
    → List PrivateChannel
change_private f g [] = []
change_private f g (c ∷ cs) = if f c then g c ∷ cs else c ∷ change_private f g cs

unfoldable pub erase_private : ℕ → List PrivateChannel → List PrivateChannel
erase_private id [] = []
erase_private id (c ∷ cs) = if c.id == id then cs else c ∷ erase_private id cs

abbrev pub has_id : ℕ → PrivateChannel → Bool
has_id id c = c.id == id

abbrev pub is_owner : ℕ → PrivateChannel → Bool
is_owner player c = c.owner == player

-- `PrivateChatChannel::isInvited`.
unfoldable pub is_invited : ℕ → PrivateChannel → Bool
is_invited player c = player == c.owner || elem player c.invites

-- `addInvited`, behind `invitePlayer`, which only adds messages.
unfoldable pub add_invited : ℕ → PrivateChannel → PrivateChannel
add_invited player c =
    if elem player c.invites then c else record c { invites = player ∷ c.invites }

-- `removeInvited`.
unfoldable pub remove_invited : ℕ → PrivateChannel → PrivateChannel
remove_invited player c = record c { invites = remove player c.invites }

abbrev pub drop_user : ℕ → PrivateChannel → PrivateChannel
drop_user player c = record c { users = remove player c.users }

-- `PrivateChatChannel::excludePlayer`.
unfoldable pub exclude_player : ℕ → PrivateChannel → PrivateChannel
unfolding remove_invited
exclude_player player c =
    if elem player c.invites then drop_user player (remove_invited player c) else c

-- The users of a channel, and a change of them.
unfoldable pub users_of : ChannelRef → Chat → Option (List ℕ)
unfolding find_users find_private
users_of (normal id) c = find_users id c.normal_channels
users_of (guild g) c = find_users g c.guild_channels
users_of (party p) c = find_users p c.party_channels
users_of (private id) c = elim (find_private (has_id id) c.private_channels) [
  | none ↦ none
  | some p ↦ some p.users
]

unfoldable pub set_users : ChannelRef → List ℕ → Chat → Chat
unfolding put_users change_private
set_users (normal id) us c = record c { normal_channels = put_users id us c.normal_channels }
set_users (guild g) us c = record c { guild_channels = put_users g us c.guild_channels }
set_users (party p) us c = record c { party_channels = put_users p us c.party_channels }
set_users (private id) us c = record c {
  private_channels = change_private (has_id id) (λ p. record p { users = us }) c.private_channels;
}

abbrev pub in_map : (ℕ → ChannelRef) → Option ℕ → Channels → Option ChannelRef
in_map ref none cs = none
in_map ref (some k) cs = elim (find_users k cs) [ none ↦ none | some us ↦ some (ref k) ]

module _ (env : Env) where
  -- `Chat::getChannel`.
  unfoldable pub get_channel : ℕ → ℕ → Chat → Option ChannelRef
  unfolding find_users find_private is_invited
  get_channel player id c =
      if id == channel_guild
      then in_map guild (env.guild player) c.guild_channels
      else if id == channel_party
      then in_map party (env.party player) c.party_channels
      else elim (find_users id c.normal_channels) [
        | some us ↦ if env.can_join id player then some (normal id) else none
        | none ↦ elim (find_private (has_id id) c.private_channels) [
          | none ↦ none
          | some p ↦ if is_invited player p then some (private id) else none
        ]
      ]

  -- `executeOnJoinEvent`: only channels that are loaded have scripts.
  unfoldable pub may_join : ℕ → ChannelRef → Bool
  may_join player (normal id) = env.on_join id player
  may_join player r = true

  -- `ChatChannel::addUser`.
  unfoldable pub add_user : ℕ → ChannelRef → Chat → Chat × Bool
  unfolding users_of set_users may_join
  add_user player ref c = elim (users_of ref c) [
    | none ↦ (c, false)
    | some us ↦
        if elem player us || not (may_join player ref)
        then (c, false)
        else (set_users ref (player ∷ us) c, true)
  ]

  -- `ChatChannel::removeUser`.
  unfoldable pub remove_user : ℕ → ChannelRef → Chat → Chat × Bool
  unfolding users_of set_users
  remove_user player ref c = elim (users_of ref c) [
    | none ↦ (c, false)
    | some us ↦ if elem player us then (set_users ref (remove player us) c, true) else (c, false)
  ]

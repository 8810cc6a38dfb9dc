-- ===== src/Chat/Members.antt =====
-- That no call brings an intruder into a private channel.
use otchronos.Prelude.{
  ℕ, ◌≡◌, ap, Option, none, some, Bool, refl, if◌then◌else◌, false, ◌==◌, not, Option-cases,
  if-both, inl, inr,
}
use otchronos.Chat.{
  Chat, Env, channel_guild, channel_party, channel_private, ChannelRef, is_owner, change_private,
  add_invited, exclude_player, get_channel, remove_user,
}
use otchronos.Chat.Calls.{
  create_channel, add_user_to_channel, owns, remove_user_from_channel,
  remove_user_from_all_channels, Call, create_private, invite, exclude, open_channel, close_channel,
  list_channels, leave_game, meets_own, leave_each, leave_private, player_create_private_channel,
  make_channel, make_channels, join_made, call,
}
use otchronos.Chat.Creation.{
  IsMade, remove_user-intrudes, add_user-intrudes, delete_channel-intrudes, get_channel-is_invited,
  create_channel-IsMade,
}
use otchronos.Chat.Private.{
  intrudes, IsPrivate, intrudes-change_private, intrudes-leave_private, intruder-add_invited,
  intruder-exclude_player,
}

module _ (env : Env) (u : ℕ) where
  join_made-intrudes :
      (player : ℕ) (m : Chat × Option ChannelRef)
      → IsMade u player m
      → intrudes u (join_made env player m).private_channels ≡ false
  unfolding join_made
  join_made-intrudes player (c, none) h = h.clean
  join_made-intrudes player (c, some r) h =
      add_user-intrudes env player u r c (λ id p e f. h.own id p (ap some e) f) h.clean

  player_create_private_channel-intrudes :
      (player : ℕ) (c : Chat)
      → intrudes u c.private_channels ≡ false
      → intrudes u (player_create_private_channel env player c).private_channels ≡ false
  unfolding player_create_private_channel
  player_create_private_channel-intrudes player c h =
      if-both (λ (d : Chat). intrudes u d.private_channels ≡ false) (not (env.is_premium player)) h
        (join_made-intrudes player (create_channel env player channel_private c)
          (create_channel-IsMade env player u channel_private c h))

  make_channel-intrudes :
      (player id : ℕ) (k : Option ℕ) (c : Chat)
      → intrudes u c.private_channels ≡ false
      → intrudes u (make_channel env player id k c).private_channels ≡ false
  unfolding make_channel
  make_channel-intrudes player id none c h = h
  make_channel-intrudes player id (some k) c h = (create_channel-IsMade env player u id c h).clean

  add_user_to_channel-intrudes :
      (player id : ℕ) (c : Chat)
      → intrudes u c.private_channels ≡ false
      → intrudes u (add_user_to_channel env player id c).0.private_channels ≡ false
  unfolding add_user_to_channel
  add_user_to_channel-intrudes player id c h = elim (Option-cases (get_channel env player id c)) [
    | inl e ↦ rw (add_user_to_channel, e) h
    | inr (r, e) ↦
        rw (add_user_to_channel, e)
          (add_user-intrudes env player u r c
            (λ j p f g. get_channel-is_invited env player id j r c p e f g) h)
  ]

  remove_user_from_channel-intrudes :
      (player id : ℕ) (c : Chat)
      → intrudes u c.private_channels ≡ false
      → intrudes u (remove_user_from_channel env player id c).0.private_channels ≡ false
  unfolding remove_user_from_channel
  remove_user_from_channel-intrudes player id c h =
      elim (Option-cases (get_channel env player id c)) [
        | inl e ↦ rw (remove_user_from_channel, e) h
        | inr (r, e) ↦
            let m = remove_user env player r c in
            let k = remove_user-intrudes env player u r c h in
            rw (remove_user_from_channel, e)
              (if-both (λ (d : Chat × Bool). intrudes u d.0.private_channels ≡ false) (not m.1) k
                (if-both (λ (d : Chat × Bool). intrudes u d.0.private_channels ≡ false)
                  (owns env player r m.0) (delete_channel-intrudes env player u id m.0 k) k))
      ]

-- Whether a call is that of a player who leaves the game and owns a private channel.
unfoldable pub leaves_own : Call → Chat → Bool
unfolding meets_own
leaves_own (leave_game player) c = meets_own player c.private_channels
leaves_own (create_private player) c = false
leaves_own (invite player other) c = false
leaves_own (exclude player other) c = false
leaves_own (open_channel player id) c = false
leaves_own (close_channel player id) c = false
leaves_own (list_channels player) c = false

-- No call of a player, other than that of an owner of a private channel who leaves the game, brings anyone but
-- the owner and invited players among the users of a private channel; and its behaviour is defined.
pub call-IsPrivate :
    (env : Env) (k : Call) (c : Chat)
    → IsPrivate c
    → leaves_own k c ≡ false
    → (d : Chat) × (call env k c ≡ some d) × IsPrivate d
unfolding call make_channels remove_user_from_all_channels leaves_own
call-IsPrivate env (create_private player) c h n = (
  player_create_private_channel env player c,
  refl,
  λ u. player_create_private_channel-intrudes env u player c (h u),
)
call-IsPrivate env (invite player other) c h n = (
  if player == other then c else record c {
    private_channels = change_private (is_owner player) (add_invited other) c.private_channels;
  },
  refl,
  λ u.
      if-both (λ (d : Chat). intrudes u d.private_channels ≡ false) (player == other) (h u)
        (intrudes-change_private u (is_owner player) (add_invited other) c.private_channels
          (intruder-add_invited u other) (h u)),
)
call-IsPrivate env (exclude player other) c h n = (
  if player == other then c else record c {
    private_channels = change_private (is_owner player) (exclude_player other) c.private_channels;
  },
  refl,
  λ u.
      if-both (λ (d : Chat). intrudes u d.private_channels ≡ false) (player == other) (h u)
        (intrudes-change_private u (is_owner player) (exclude_player other) c.private_channels
          (intruder-exclude_player u other) (h u)),
)
call-IsPrivate env (open_channel player id) c h n = (
  (add_user_to_channel env player id c).0,
  refl,
  λ u. add_user_to_channel-intrudes env u player id c (h u),
)
call-IsPrivate env (close_channel player id) c h n = (
  (remove_user_from_channel env player id c).0,
  refl,
  λ u. remove_user_from_channel-intrudes env u player id c (h u),
)
call-IsPrivate env (list_channels player) c h n = (
  make_channels env player c,
  refl,
  λ u.
      make_channel-intrudes env u player channel_party (env.party player)
        (make_channel env player channel_guild (env.guild player) c)
        (make_channel-intrudes env u player channel_guild (env.guild player) c (h u)),
)
call-IsPrivate env (leave_game player) c h n =
    let d : Chat = record {
      normal_channels = leave_each player c.normal_channels;
      guild_channels = leave_each player c.guild_channels;
      party_channels = leave_each player c.party_channels;
      private_channels = leave_private player c.private_channels;
    } in
    (
      d,
      rw (remove_user_from_all_channels, n) refl,
      λ u. intrudes-leave_private u player c.private_channels n (h u),
    )

-- ===== src/Chat/Creation.antt =====
-- What the making of a channel and the other operations do to the users of private channels.
use otchronos.Prelude.{
  ℕ, ◌≡◌, refl, subst, Option, none, some, Bool, true, false, ◌==◌, ◌||◌, not, [], ◌∷◌, elem,
  remove, arith, Option-cases, if-both, ==-refl, inl, inr,
}
use otchronos.Chat.{
  PrivateChannel, Chat, Env, channel_guild, channel_party, channel_private, ChannelRef, normal,
  guild, party, private, find_private, has_id, is_invited, users_of, set_users, get_channel,
  add_user, remove_user,
}
use otchronos.Chat.Calls.{
  get_private_channel, free_id, new_private, create_channel, create_guild_channel,
  create_party_channel, create_private_channel, delete_channel,
}
use otchronos.Chat.Private.{
  intruder, intrudes, intrudes-erase_private, intrudes-append, find_private-append,
  free_id-find_private, intrudes-set_users, intruder-remove, intruder-add,
}

intrudes-new_private :
    (u i player : ℕ) (c : Chat)
    → intrudes u c.private_channels ≡ false
    → intrudes u (new_private i player c).private_channels ≡ false
unfolding new_private intruder elem
intrudes-new_private u i player c h = ground (
  arith,
  h,
  intrudes-append u c.private_channels
      (record { id = i; owner = player; invites = []; users = [] }),
)

new_private-is_invited :
    (i player : ℕ) (c : Chat) (p : PrivateChannel)
    → find_private (has_id i) c.private_channels ≡ none
    → find_private (has_id i) (new_private i player c).private_channels ≡ some p
    → is_invited player p ≡ true
unfolding new_private is_invited
new_private-is_invited i player c p h k = ground (
  arith,
  k,
  find_private-append (has_id i) c.private_channels
      (record { id = i; owner = player; invites = []; users = [] }) h (==-refl i),
)

-- What a case of `createChannel` promises: no intruder, and a private channel is one's own.
pub record IsMade (u player : ℕ) (m : Chat × Option ChannelRef) : Type 0 where
  pub clean : intrudes u m.0.private_channels ≡ false
  pub own :
      (j : ℕ) (p : PrivateChannel)
      → m.1 ≡ some (private j)
      → find_private (has_id j) m.0.private_channels ≡ some p
      → is_invited player p ≡ true

unmade :
    (u player : ℕ) (c : Chat) → intrudes u c.private_channels ≡ false → IsMade u player (c, none)
unmade u player c h = record { clean = h; own = λ j p e f. absurd (cc e) }

create_guild_channel-IsMade :
    (u player : ℕ) (g : Option ℕ) (c : Chat)
    → intrudes u c.private_channels ≡ false
    → IsMade u player (create_guild_channel g c)
unfolding create_guild_channel
create_guild_channel-IsMade u player none c h = unmade u player c h
create_guild_channel-IsMade u player (some g) c h = record {
  clean = h;
  own = λ j p e f. absurd (cc e);
}

create_party_channel-IsMade :
    (u player : ℕ) (g : Option ℕ) (c : Chat)
    → intrudes u c.private_channels ≡ false
    → IsMade u player (create_party_channel g c)
unfolding create_party_channel
create_party_channel-IsMade u player none c h = unmade u player c h
create_party_channel-IsMade u player (some g) c h = record {
  clean = h;
  own = λ j p e f. absurd (cc e);
}

new_private-IsMade :
    (u i player : ℕ) (c : Chat)
    → intrudes u c.private_channels ≡ false
    → find_private (has_id i) c.private_channels ≡ none
    → IsMade u player (new_private i player c, some (private i))
new_private-IsMade u i player c h k = record {
  clean = intrudes-new_private u i player c h;
  own = λ j p e f.
      let same : j ≡ i = cc e in
      new_private-is_invited i player c p k (
        subst (λ x. find_private (has_id x) (new_private i player c).private_channels ≡ some p) same
          f);
}

create_private_channel-IsMade :
    (u player : ℕ) (premium : Bool) (c : Chat)
    → intrudes u c.private_channels ≡ false
    → IsMade u player (create_private_channel premium player c)
unfolding create_private_channel
create_private_channel-IsMade u player false c h = unmade u player c h
create_private_channel-IsMade u player true c h =
    elim (Option-cases (get_private_channel player c)) [
      | inr (p, e) ↦ rw (create_private_channel, e) (unmade u player c h)
      | inl e ↦ elim (Option-cases (free_id 9900 100 c.private_channels)) [
        | inl n ↦ rw (create_private_channel, e, n) (unmade u player c h)
        | inr (i, n) ↦
            rw (create_private_channel, e, n)
              (new_private-IsMade u i player c h
                (free_id-find_private 9900 100 i c.private_channels n))
      ]
    ]

module _ (env : Env) (player : ℕ) where
  pub remove_user-intrudes :
      (u : ℕ) (ref : ChannelRef) (c : Chat)
      → intrudes u c.private_channels ≡ false
      → intrudes u (remove_user env player ref c).0.private_channels ≡ false
  unfolding remove_user users_of set_users
  remove_user-intrudes u (normal id) c h = ground (arith, h)
  remove_user-intrudes u (guild id) c h = ground (arith, h)
  remove_user-intrudes u (party id) c h = ground (arith, h)
  remove_user-intrudes u (private id) c h =
      elim (Option-cases (find_private (has_id id) c.private_channels)) [
        | inl e ↦ rw (remove_user, users_of, e) h
        | inr (p, e) ↦
            rw (remove_user, users_of, e)
              (if-both (λ (r : Chat × Bool). intrudes u r.0.private_channels ≡ false)
                (elem player p.users)
                (intrudes-set_users u id (remove player p.users) c p e (intruder-remove u player p)
                  h)
                h)
      ]

  pub add_user-intrudes :
      (u : ℕ) (ref : ChannelRef) (c : Chat)
      → ((id : ℕ) (p : PrivateChannel)
          → ref ≡ private id
          → find_private (has_id id) c.private_channels ≡ some p
          → is_invited player p ≡ true)
      → intrudes u c.private_channels ≡ false
      → intrudes u (add_user env player ref c).0.private_channels ≡ false
  unfolding add_user users_of set_users
  add_user-intrudes u (normal id) c i h = ground (arith, h)
  add_user-intrudes u (guild id) c i h = ground (arith, h)
  add_user-intrudes u (party id) c i h = ground (arith, h)
  add_user-intrudes u (private id) c i h =
      elim (Option-cases (find_private (has_id id) c.private_channels)) [
        | inl e ↦ rw (add_user, users_of, e) h
        | inr (p, e) ↦
            rw (add_user, users_of, e)
              (if-both (λ (r : Chat × Bool). intrudes u r.0.private_channels ≡ false)
                (elem player p.users || not true) h
                (intrudes-set_users u id (player ∷ p.users) c p e
                  (intruder-add u player p (i id p refl e)) h))
      ]

  pub delete_channel-intrudes :
      (u id : ℕ) (c : Chat)
      → intrudes u c.private_channels ≡ false
      → intrudes u (delete_channel env player id c).0.private_channels ≡ false
  unfolding delete_channel
  delete_channel-intrudes u id c h =
      ground (arith, h, intrudes-erase_private u id c.private_channels)

  -- A private channel that `getChannel` gives is one to which the player is invited.
  pub get_channel-is_invited :
      (id j : ℕ) (r : ChannelRef) (c : Chat) (p : PrivateChannel)
      → get_channel env player id c ≡ some r
      → r ≡ private j
      → find_private (has_id j) c.private_channels ≡ some p
      → is_invited player p ≡ true
  unfolding get_channel
  get_channel-is_invited id j r c p e f g = ground (arith, e, f, g)

  pub create_channel-IsMade :
      (u id : ℕ) (c : Chat)
      → intrudes u c.private_channels ≡ false
      → IsMade u player (create_channel env player id c)
  unfolding create_channel
  create_channel-IsMade u id c h = elim (Option-cases (get_channel env player id c)) [
    | inr (r, e) ↦ rw (create_channel, e) (unmade u player c h)
    | inl e ↦
        rw (create_channel, e)
          (if-both (IsMade u player) (id == channel_guild)
            (create_guild_channel-IsMade u player (env.guild player) c h)
            (if-both (IsMade u player) (id == channel_party)
              (create_party_channel-IsMade u player (env.party player) c h)
              (if-both (IsMade u player) (id == channel_private)
                (create_private_channel-IsMade u player (env.is_premium player) c h)
                (unmade u player c h))))
  ]

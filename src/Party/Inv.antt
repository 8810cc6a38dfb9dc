-- ===== src/Party/Inv.antt =====
-- The two views of membership, counted: what the parties' lists say, and what the players say.
use otchronos.Prelude.{ℕ, ◌+◌, ◌≤◌, ◌≡◌, ◌≢◌, ◌∷◌, none, some, from_bool, count}
use otchronos.Party.State.{World, in_party}

-- How often `p` stands among the leader and the members of party `i`.
abbrev pub roster : ℕ → ℕ → World → ℕ
roster i p w = elim (w.parties i) [ none ↦ 0 | some c ↦ count p (c.leader ∷ c.member_list) ]

-- How often party `i` has invited `p`.
abbrev pub invited : ℕ → ℕ → World → ℕ
invited i p w = elim (w.parties i) [ none ↦ 0 | some c ↦ count p c.invite_list ]

-- 1 if `p` says that `i` is its party.
abbrev pub belongs : ℕ → ℕ → World → ℕ
belongs i p w = from_bool (in_party i (w.players p))

-- How often `p` holds an invitation of `i`.
abbrev pub holds : ℕ → ℕ → World → ℕ
holds i p w = count i (w.players p).invite_party_list

-- The lists and the players agree: the leader and the members of a party are exactly the players
-- whose party it is, each of them once; its invitees are exactly the players that hold its
-- invitation; nobody is invited twice, nor by the own party; and no party stands where the next one
-- will be made.
pub record Inv (w : World) : Type 0 where
  pub roster_belongs : (i p : ℕ) → roster i p w ≡ belongs i p w
  pub invited_holds : (i p : ℕ) → invited i p w ≡ holds i p w
  pub apart : (i p : ℕ) → holds i p w + belongs i p w ≤ 1
  pub unmade : (i : ℕ) → w.next_party ≤ i → w.parties i ≡ none

-- What holds of party `i` while its leader has left it and it is not yet disbanded.
pub record InvBut (i : ℕ) (w : World) : Type 0 where
  pub roster_belongs : (j p : ℕ) → j ≢ i → roster j p w ≡ belongs j p w
  pub within : (p : ℕ) → belongs i p w ≤ roster i p w
  pub alone : (j p : ℕ) → j ≢ i → roster i p w + belongs j p w ≤ 1
  pub invited_holds : (j p : ℕ) → invited j p w ≡ holds j p w
  pub apart : (j p : ℕ) → holds j p w + belongs j p w ≤ 1
  pub unmade : (j : ℕ) → w.next_party ≤ j → w.parties j ≡ none

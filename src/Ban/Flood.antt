-- ===== src/Ban/Flood.antt =====
-- An address that tries again and again.
use otchronos.Prelude.{
  ℕ, suc, ◌+◌, ◌-◌, ◌*◌, ◌^◌, ◌≤◌, ◌≡◌, refl, ◌∙◌, none, some, Bool, true, false, ◌==◌, ◌&&◌, ◌||◌,
  if◌then◌else◌, ltb, leb, List, [], ◌∷◌, length, arith, inl, inr, Bool-cases, Option-cases, subst,
}
use otchronos.Ban.{ConnectBlock, IpConnectMap, put_block, attempt, accept_connection}

-- Attempts to connect, each with its time and its address.
abbrev pub Attempts : Type 0
Attempts = List (ℕ × ℕ)

-- How many attempts of an address are accepted.
unfoldable pub accepted : ℕ → Attempts → IpConnectMap → ℕ
unfolding accept_connection
accepted ip [] m = 0
accepted ip ((now, other) ∷ later) m =
    let (m', taken) = accept_connection now other m in
    let rest = accepted ip later m' in if other == ip && taken then suc rest else rest

-- After an attempt of the address, its further ones come at most 250 milliseconds apart.
unfoldable pub is_flood : ℕ → ℕ → Attempts → Bool
is_flood ip last [] = true
is_flood ip last ((now, other) ∷ later) =
    let after = is_flood ip now later in
    let still = is_flood ip last later in
    if other == ip then (leb now (last + 250) && leb now (2 ^ 62)) && after else still

-- How many attempts are yet to be accepted, by the entry of the address.
bound : ℕ → ConnectBlock → ℕ
bound last b = if ltb (last + 250) b.block_time then 0 else 5 - b.count

-- The entry of an address whose last attempt was at a time, where so many are to come.
unfoldable fits : ℕ → ℕ → ConnectBlock → Bool
fits n last b =
    (ltb (last + 250) b.block_time && ltb (b.block_time + 250 * n) (2 ^ 64))
    || ((b.block_time == 0 && b.last_attempt == last) && leb b.count 5)

attempt-fits :
    (n last now : ℕ) (b : ConnectBlock)
    → n ≤ 2 ^ 32
    → now ≤ last + 250
    → now ≤ 2 ^ 62
    → fits (suc n) last b ≡ true
    → (fits n now (attempt now b).0 ≡ true)
      × ((if (attempt now b).1 then 1 else 0) + bound now (attempt now b).0 ≤ bound last b)
unfolding attempt fits bound
attempt-fits n last now b k h u f = (ground (arith, k, h, u, f), ground (arith, k, h, u, f))

fits-less : (n last : ℕ) (b : ConnectBlock) → fits (suc n) last b ≡ true → fits n last b ≡ true
unfolding fits
fits-less n last b f = ground (arith, f)

accepted-same :
    (ip now : ℕ) (later : Attempts) (m : IpConnectMap) (b : ConnectBlock)
    → m ip ≡ some b
    → accepted ip ((now, ip) ∷ later) m
      ≡ (if (attempt now b).1 then 1 else 0) + accepted ip later (put_block ip (attempt now b).0 m)
unfolding accepted accept_connection
accepted-same ip now later m b e = ground (arith, e)

accepted-other :
    (ip now other : ℕ) (later : Attempts) (m : IpConnectMap)
    → (other == ip) ≡ false
    → (accepted ip ((now, other) ∷ later) m ≡ accepted ip later (accept_connection now other m).0)
      × ((accept_connection now other m).0 ip ≡ m ip)
unfolding accepted accept_connection
accepted-other ip now other later m e = elim (Option-cases (m other)) [
  | inl h ↦ (ground (arith, e, h), ground (arith, e, h))
  | inr (b, h) ↦ (ground (arith, e, h), ground (arith, e, h))
]

accepted-nil : (ip : ℕ) (m : IpConnectMap) → accepted ip [] m ≡ 0
unfolding accepted
accepted-nil ip m = refl

put_block-same : (ip : ℕ) (b : ConnectBlock) (m : IpConnectMap) → put_block ip b m ip ≡ some b
put_block-same ip b m = ground arith

accepted-bound :
    (ip last : ℕ) (tries : Attempts) (m : IpConnectMap) (b : ConnectBlock)
    → m ip ≡ some b
    → fits (length tries) last b ≡ true
    → length tries ≤ 2 ^ 32
    → is_flood ip last tries ≡ true
    → accepted ip tries m ≤ bound last b
unfolding is_flood
accepted-bound ip last [] m b e f k h = omega (arith, accepted-nil ip m)
accepted-bound ip last ((now, other) ∷ later) m b e f k h = elim (Bool-cases (other == ip)) [
  | inl s ↦
      let eq : ip ≡ other = ground (arith, s) in
      let (fits', less) =
        attempt-fits (length later) last now b (omega (arith, k)) (ground (arith, h, s))
          (ground (arith, h, s)) f in
      let m' = put_block ip (attempt now b).0 m in
      let rest =
        accepted-bound ip now later m' (attempt now b).0 (put_block-same ip (attempt now b).0 m)
          fits' (omega (arith, k)) (ground (arith, h, s)) in
      subst (λ o. accepted ip ((now, o) ∷ later) m ≤ bound last b) eq
        (omega (arith, accepted-same ip now later m b e, less, rest))
  | inr s ↦
      let (less, here) = accepted-other ip now other later m s in
      let m' = (accept_connection now other m).0 in
      let rest =
        accepted-bound ip last later m' b (here ∙ e) (fits-less (length later) last b f)
          (omega (arith, k)) (ground (arith, h, s)) in
      omega (arith, less, rest)
]

accepted-first :
    (ip now : ℕ) (later : Attempts) (m : IpConnectMap)
    → m ip ≡ none
    → accepted ip ((now, ip) ∷ later) m
      ≡ suc (
          accepted ip later
            (put_block ip record { last_attempt = now; block_time = 0; count = 1 } m))
unfolding accepted accept_connection
accepted-first ip now later m e = ground (arith, e)

first-fits :
    (n now : ℕ) → fits n now record { last_attempt = now; block_time = 0; count = 1 } ≡ true
unfolding fits
first-fits n now = ground arith

first_bound : (now : ℕ) → bound now record { last_attempt = now; block_time = 0; count = 1 } ≤ 4
unfolding bound
first_bound now = ground arith

-- An address that is not known yet and that tries again and again, each time at most 250 milliseconds
-- after the time before, is accepted at most five times, however often it tries (up to 2 ^ 32 times and up
-- to the time 2 ^ 62) and whatever other addresses do.
pub accepted_lem :
    (ip now : ℕ) (later : Attempts) (m : IpConnectMap)
    → m ip ≡ none
    → length later ≤ 2 ^ 32
    → is_flood ip now later ≡ true
    → accepted ip ((now, ip) ∷ later) m ≤ 5
accepted_lem ip now later m e k h =
    let b : ConnectBlock = record { last_attempt = now; block_time = 0; count = 1 } in
    let rest =
      accepted-bound ip now later (put_block ip b m) b (put_block-same ip b m)
        (first-fits (length later) now) k h in
    omega (arith, accepted-first ip now later m e, rest, first_bound now)

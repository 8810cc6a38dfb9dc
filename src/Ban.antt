-- ===== src/Ban.antt =====
-- The limit of connections for each address, `Ban::acceptConnection` of ban.cpp, at a time of the clock
-- in milliseconds. A difference of times below 0, where the clock has gone back, passes both
-- tests of the source, as the difference 0 of ℕ does.
mod Flood
mod Tests
use otchronos.Prelude.{
  ℕ, zero, suc, ◌+◌, ◌-◌, ◌%◌, ◌^◌, Option, none, some, Bool, true, false, ◌==◌, if◌then◌else◌, ltb,
  leb,
}

-- `ConnectBlock`.
pub record ConnectBlock : Type 0 where
  pub last_attempt : ℕ
  pub block_time : ℕ
  pub count : ℕ

-- `IpConnectMap`.
abbrev pub IpConnectMap : Type 0
IpConnectMap = ℕ → Option ConnectBlock

abbrev pub put_block : ℕ → ConnectBlock → IpConnectMap → IpConnectMap
put_block ip b m = λ other. if other == ip then some b else m other

-- What becomes of an address that is in the map, and whether it is accepted.
unfoldable pub attempt : ℕ → ConnectBlock → ConnectBlock × Bool
attempt now b =
    if ltb now b.block_time
    then (
      record {
        last_attempt = b.last_attempt;
        block_time = (b.block_time + 250) % 2 ^ 64;
        count = b.count;
      },
      false,
    )
    else if leb (now - b.last_attempt) 5000
    then if ltb 5 ((b.count + 1) % 2 ^ 32)
      then if leb (now - b.last_attempt) 500
        then (record { last_attempt = now; block_time = (now + 3000) % 2 ^ 64; count = 0 }, false)
        else (record { last_attempt = now; block_time = b.block_time; count = 0 }, true)
      else (
        record { last_attempt = now; block_time = b.block_time; count = (b.count + 1) % 2 ^ 32 },
        true,
      )
    else (record { last_attempt = now; block_time = b.block_time; count = 1 }, true)

-- `Ban::acceptConnection`.
unfoldable pub accept_connection : ℕ → ℕ → IpConnectMap → IpConnectMap × Bool
unfolding attempt
accept_connection now ip m = elim (m ip) [
  | none ↦ (put_block ip record { last_attempt = now; block_time = 0; count = 1 } m, true)
  | some b ↦ let (b', accepted) = attempt now b in (put_block ip b' m, accepted)
]

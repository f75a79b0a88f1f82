-- ===== src/Login/Ban.antt =====
-- `Ban::acceptConnection` of src/ban.cpp: how often an address may connect. Times are milliseconds.
pub mod Throttle
use infernum_data_pack.Base.{
  ℕ, suc, ◌+◌, ◌-◌, Bool, true, false, List, [], ◌∷◌, Option, none, some, ltb, leb, ◌==◌,
  if◌then◌else◌,
}

pub record ConnectBlock : Type 0 where
  pub last_attempt : ℕ  -- uint64_t
  pub block_time : ℕ  -- uint64_t
  pub count : ℕ  -- uint32_t

-- `IpConnectMap`
abbrev pub IpConnectMap : Type 0
IpConnectMap = List (ℕ × ConnectBlock)

unfoldable pub find : ℕ → IpConnectMap → Option ConnectBlock
find ip [] = none
find ip ((i, b) ∷ m) = if i == ip then some b else find ip m

-- Writes through the reference that `find` gave, or a new entry.
unfoldable pub assign : ℕ → ConnectBlock → IpConnectMap → IpConnectMap
assign ip b [] = (ip, b) ∷ []
assign ip b ((i, c) ∷ m) = if i == ip then (i, b) ∷ m else (i, c) ∷ assign ip b m

-- `timeDiff <= limit`, where `timeDiff` is the signed difference: a clock that ran backwards makes it
-- negative.
abbrev pub within : ℕ → ℕ → ℕ → Bool
within limit now before = leb now (before + limit)

-- The part of the function that works on a known address.
unfoldable pub attempt : ℕ → ConnectBlock → ConnectBlock × Bool
attempt now b =
    if ltb now b.block_time
    then (record b { block_time = b.block_time + 250 }, false)
    else if within 5000 now b.last_attempt
    then (if ltb 5 (b.count + 1)
        then (if within 500 now b.last_attempt
            then (record { last_attempt = now; block_time = now + 3000; count = 0 }, false)
            else (record b { last_attempt = now; count = 0 }, true))
        else (record b { last_attempt = now; count = b.count + 1 }, true))
    else (record b { last_attempt = now; count = 1 }, true)

unfoldable pub known : ℕ → ℕ → IpConnectMap → Option ConnectBlock → IpConnectMap × Bool
unfolding attempt
known now ip m none = (assign ip (record { last_attempt = now; block_time = 0; count = 1 }) m, true)
known now ip m (some b) = let (b', accepted) = attempt now b in (assign ip b' m, accepted)

unfoldable pub accept_connection : ℕ → ℕ → IpConnectMap → IpConnectMap × Bool
unfolding known find
accept_connection now ip m = known now ip m (find ip m)

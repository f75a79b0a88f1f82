-- ===== src/Login/Ban/Throttle.antt =====
-- What the throttle of src/ban.cpp guarantees.
use infernum_data_pack.Base.{
  ℕ, ◌+◌, ◌≤◌, ◌<◌, ◌≡◌, refl, ap, ◌∙◌, ◌⊎◌, inl, inr, Bool, false, List, [], ◌∷◌, some, arith,
  ◌==◌, if◌then◌else◌, All, length, Option-cases, lt→ltb, ==_self, ◌↔◌, ◌*◌,
}
use infernum_data_pack.Login.Ban.{
  ConnectBlock, IpConnectMap, find, assign, attempt, known, accept_connection,
}

pub find-assign :
    (ip i : ℕ) (b : ConnectBlock) (m : IpConnectMap)
    → find i (assign ip b m) ≡ (if ip == i then some b else find i m)
unfolding find assign
find-assign ip i b [] = refl
find-assign ip i b ((j, c) ∷ m) = ground (arith, find-assign ip i b m)

-- At most five counted attempts, however many there have been: the counter cannot wrap.
pub record IsThrottled (b : ConnectBlock) : Type 0 where
  pub counted : b.count ≤ 5

-- Every entry of the map is within the count.
abbrev pub AllThrottled : IpConnectMap → Type 0
AllThrottled m = All (λ (e : ℕ × ConnectBlock). IsThrottled e.1) m

attempt-IsThrottled : (now : ℕ) (b : ConnectBlock) → IsThrottled b → IsThrottled (attempt now b).0
unfolding attempt
attempt-IsThrottled now b t = ground arith

assign-AllThrottled :
    (ip : ℕ) (b : ConnectBlock) (m : IpConnectMap)
    → IsThrottled b
    → AllThrottled m
    → AllThrottled (assign ip b m)
unfolding assign
assign-AllThrottled ip b [] t h = (t, tt)
assign-AllThrottled ip b ((i, c) ∷ m) t h = ground (arith, t, h, assign-AllThrottled ip b m t h.1)

find-IsThrottled :
    (ip : ℕ) (b : ConnectBlock) (m : IpConnectMap)
    → AllThrottled m
    → find ip m ≡ some b
    → IsThrottled b
unfolding find
find-IsThrottled ip b [] h e = cc
find-IsThrottled ip b ((i, c) ∷ m) h e = ground (arith, h, find-IsThrottled ip b m h.1)

-- Every attempt, from whatever address and at whatever time, keeps each counter at five at most; so
-- `++count` never wraps.
pub accept_connection-AllThrottled :
    (now ip : ℕ) (m : IpConnectMap) → AllThrottled m → AllThrottled (accept_connection now ip m).0
unfolding accept_connection
accept_connection-AllThrottled now ip m h = elim (Option-cases (find ip m)) [
  | inl e ↦ rw e (unfold known in assign-AllThrottled ip _ m (omega arith) h)
  | inr (b, e) ↦ rw e (
      unfold known in
      assign-AllThrottled ip _ m (attempt-IsThrottled now b (find-IsThrottled ip b m h e)) h)
]

-- Why an attempt on a known address is refused: a block is still running, or five attempts have been
-- counted and the last one is half a second old at most.
abbrev pub IsRefused : ℕ → ConnectBlock → Type 0
IsRefused now b =
    (now < b.block_time) ⊎ ((b.block_time ≤ now) × (now ≤ b.last_attempt + 500) × (5 ≤ b.count))

attempt-IsRefused : (now : ℕ) (b : ConnectBlock) → (attempt now b).1 ≡ false → IsRefused now b
unfolding attempt
attempt-IsRefused now b h = ground arith

IsRefused-attempt : (now : ℕ) (b : ConnectBlock) → IsRefused now b → (attempt now b).1 ≡ false
unfolding attempt
IsRefused-attempt now b h = ground arith

-- An attempt is refused exactly if its address is known and `IsRefused` holds of its entry.
pub accept_connection-IsRefused :
    (now ip : ℕ) (m : IpConnectMap)
    → ((accept_connection now ip m).1 ≡ false)
      ↔ ((b : ConnectBlock) × (find ip m ≡ some b) × IsRefused now b)
unfolding accept_connection
accept_connection-IsRefused now ip m = elim (Option-cases (find ip m)) [
  | inl e ↦ rw e (unfold known in (λ h. cc, λ h. cc (h.1)))
  | inr (b, e) ↦ rw e (
      unfold known in
      (
        λ h. (b, refl, attempt-IsRefused now b h),
        λ (c, f, r). IsRefused-attempt now b (ground (arith, r)),
      ))
]

-- The attempts of one address at a list of times, and the answers.
pub attempts : ℕ → List ℕ → IpConnectMap → IpConnectMap × List Bool
attempts ip [] m = (m, [])
attempts ip (t ∷ ts) m =
    let (m', a) = accept_connection t ip m in let (m'', as') = attempts ip ts m' in (m'', a ∷ as')

abbrev pub refusals : List ℕ → List Bool
refusals [] = []
refusals (t ∷ ts) = false ∷ refusals ts

later-All : (n k : ℕ) (ts : List ℕ) → All (λ t. t < n) ts → All (λ t. t < n + k) ts
later-All n k [] h = tt
later-All n k (t ∷ ts) h = (omega arith, later-All n k ts h.1)

blocked_step :
    (ip t : ℕ) (m : IpConnectMap) (b : ConnectBlock)
    → find ip m ≡ some b
    → t < b.block_time
    → accept_connection t ip m ≡ (assign ip (record b { block_time = b.block_time + 250 }) m, false)
unfolding accept_connection
blocked_step ip t m b e h = rw e (unfold known attempt in simp (lt→ltb t b.block_time h))

-- While an address is blocked every attempt is refused, and each puts the end of the block off by a
-- quarter of a second; nothing else of its entry changes.
pub blocked_attempts :
    (ip : ℕ) (ts : List ℕ) (m : IpConnectMap) (b : ConnectBlock)
    → find ip m ≡ some b
    → All (λ t. t < b.block_time) ts
    → ((attempts ip ts m).1 ≡ refusals ts)
      × (find ip (attempts ip ts m).0
          ≡ some (record b { block_time = b.block_time + 250 * length ts }))
unfolding attempts
blocked_attempts ip [] m b e h = (refl, ground arith)
blocked_attempts ip (t ∷ ts) m b e h =
    let b' : ConnectBlock = record b { block_time = b.block_time + 250 } in
    let found : find ip (assign ip b' m) ≡ some b' = rw (find-assign ip ip b' m, ==_self ip) in
    let rest =
      blocked_attempts ip ts (assign ip b' m) b' found (later-All b.block_time 250 ts h.1) in
    rw (blocked_step ip t m b e h.0) (ap (◌∷◌ false) rest.0, rest.1 ∙ ground arith)

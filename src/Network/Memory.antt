-- ===== src/Network/Memory.antt =====
-- A message's `buffer` as a function from offsets to bytes, and the `memcpy`s in and out of it.
use infernum_data_pack.Base.{
  ℕ, zero, suc, ◌+◌, ◌*◌, ◌/◌, ◌%◌, ◌^◌, ◌≤◌, ◌<◌, ◌≡◌, refl, ap, ap₂, fun_ext, ◌∙◌, List, [], ◌∷◌,
  ◌++◌, All, arith, length, if◌then◌else◌, ◌==◌, ==_ne, ==_self,
}
use native.Mathlib.Nat.{pow-suc}
use infernum_data_pack.Network.Words.{IsByte}

abbrev pub Memory : Type 0
Memory = ℕ → ℕ

abbrev pub poke : Memory → ℕ → ℕ → Memory
poke buf p b q = if p == q then b else buf q

-- Copies the `n` bytes from offset `p` on.
unfoldable pub load : Memory → ℕ → ℕ → List ℕ
load buf p zero = []
load buf p (suc n) = buf p ∷ load buf (p + 1) n

-- Copies a list of bytes to offset `p` and on.
unfoldable pub store : Memory → ℕ → List ℕ → Memory
store buf p [] = buf
store buf p (b ∷ bs) = poke (store buf (p + 1) bs) p b

-- The bytes of an unsigned integer of `n` bytes, lowest first, as x86 keeps it in memory.
unfoldable pub le_bytes : ℕ → ℕ → List ℕ
le_bytes zero v = []
le_bytes (suc n) v = v % 256 ∷ le_bytes n (v / 256)

unfoldable pub le_value : List ℕ → ℕ
le_value [] = 0
le_value (b ∷ bs) = b + 256 * le_value bs

pub length-load : (buf : Memory) (p n : ℕ) → length (load buf p n) ≡ n
unfolding load
length-load buf p zero = refl
length-load buf p (suc n) = ap suc (length-load buf (p + 1) n)

pub length-le_bytes : (n v : ℕ) → length (le_bytes n v) ≡ n
unfolding le_bytes
length-le_bytes zero v = refl
length-le_bytes (suc n) v = ap suc (length-le_bytes n (v / 256))

pub le_bytes-IsByte : (n v : ℕ) → All IsByte (le_bytes n v)
unfolding le_bytes
le_bytes-IsByte zero v = tt
le_bytes-IsByte (suc n) v = (omega arith, le_bytes-IsByte n (v / 256))

pub le_value-le_bytes : (n v : ℕ) → v < 256 ^ n → le_value (le_bytes n v) ≡ v
unfolding le_value le_bytes
le_value-le_bytes zero v h = omega arith
le_value-le_bytes (suc n) v h =
    omega (arith, le_value-le_bytes n (v / 256) (omega (arith, pow-suc 256 n)))

-- An offset in front of what is written, and one behind it, keeps its byte.
pub store_before : (buf : Memory) (p : ℕ) (bs : List ℕ) (q : ℕ) → q < p → store buf p bs q ≡ buf q
unfolding store
store_before buf p [] q h = refl
store_before buf p (b ∷ bs) q h =
    rw (==_ne p q (λ e. omega arith)) (store_before buf (p + 1) bs q (omega arith))

pub store_after :
    (buf : Memory) (p : ℕ) (bs : List ℕ) (q : ℕ) → p + length bs ≤ q → store buf p bs q ≡ buf q
unfolding store
store_after buf p [] q h = refl
store_after buf p (b ∷ bs) q h =
    rw (==_ne p q (λ e. omega arith)) (store_after buf (p + 1) bs q (omega arith))

-- What a load sees depends on the bytes it reads only.
pub load_cong :
    (f g : Memory) (p n : ℕ) → ((q : ℕ) → p ≤ q → q < p + n → f q ≡ g q) → load f p n ≡ load g p n
unfolding load
load_cong f g p zero h = refl
load_cong f g p (suc n) h =
    ap₂ ◌∷◌ (h p (omega arith) (omega arith))
      (load_cong f g (p + 1) n (λ q a b. h q (omega arith) (omega arith)))

pub load-store_before :
    (buf : Memory) (p n q : ℕ) (bs : List ℕ) → p + n ≤ q → load (store buf q bs) p n ≡ load buf p n
load-store_before buf p n q bs h =
    load_cong _ _ p n (λ r a b. store_before buf q bs r (omega arith))

pub load-store_after :
    (buf : Memory) (p n q : ℕ) (bs : List ℕ)
    → q + length bs ≤ p
    → load (store buf q bs) p n ≡ load buf p n
load-store_after buf p n q bs h = load_cong _ _ p n (λ r a b. store_after buf q bs r (omega arith))

pub load-store_self :
    (buf : Memory) (p : ℕ) (bs : List ℕ) → load (store buf p bs) p (length bs) ≡ bs
unfolding load store
load-store_self buf p [] = refl
load-store_self buf p (b ∷ bs) = ap₂ ◌∷◌ (rw (==_self p)) (
    load_cong _ _ (p + 1) (length bs) (λ q a c. rw (==_ne p q (λ e. omega arith)))
    ∙ load-store_self buf (p + 1) bs)

pub load-append :
    (buf : Memory) (p m n : ℕ) → load buf p (m + n) ≡ load buf p m ++ load buf (p + m) n
unfolding load
load-append buf p zero n =
    let e : zero + n ≡ n = omega arith in let f : p + zero ≡ p = omega arith in rw (e, f)
load-append buf p (suc m) n =
    let e : suc m + n ≡ suc (m + n) = omega arith in
    let f : p + 1 + m ≡ p + suc m = omega arith in
    rw e (ap (◌∷◌ (buf p)) (load-append buf (p + 1) m n ∙ rw f))

poke-store :
    (buf : Memory) (p b q : ℕ) (bs : List ℕ)
    → p < q
    → poke (store buf q bs) p b ≡ store (poke buf p b) q bs
unfolding store
poke-store buf p b q [] h = refl
poke-store buf p b q (c ∷ bs) h =
    fun_ext
      λ r. ground (arith, ap (λ (f : Memory). f r) (poke-store buf p b (q + 1) bs (omega arith)))

-- Two writes, one behind the other, are one write.
pub store-append :
    (buf : Memory) (p : ℕ) (bs cs : List ℕ)
    → store buf p (bs ++ cs) ≡ store (store buf p bs) (p + length bs) cs
unfolding store
store-append buf p [] cs = let e : p + 0 ≡ p = omega arith in rw e
store-append buf p (b ∷ bs) cs =
    ap (λ (f : Memory). poke f p b) (store-append buf (p + 1) bs cs)
    ∙ poke-store (store buf (p + 1) bs) p b (p + 1 + length bs) cs (omega arith)
    ∙ (let e : p + 1 + length bs ≡ p + suc (length bs) = omega arith in rw e)

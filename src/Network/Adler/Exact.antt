-- ===== src/Network/Adler/Exact.antt =====
-- The checksum of src/tools.cpp is Adler-32: its 32-bit sums never wrap between two reductions.
use infernum_data_pack.Base.{
  ℕ, zero, suc, ◌+◌, ◌*◌, ◌%◌, ◌^◌, ◌≤◌, ◌<◌, ◌≡◌, refl, sym, ap, ◌∙◌, List, [], ◌∷◌, ◌++◌, All,
  All-take, All-drop, arith, length, take, drop, take-append-drop, length-take, length-drop, ltb,
  false,
}
use infernum_data_pack.Base.Bits.{bit_or_disjoint_left}
use infernum_data_pack.Network.Words.{IsByte, add32}
use infernum_data_pack.Network.Message.{network_message_max_size}
use infernum_data_pack.Network.Adler.{adler, add_chunk, add_chunks, adler_checksum}

-- The definition of RFC 1950: both sums modulo 65521 after every byte.
pub reference : List ℕ → ℕ → ℕ → ℕ × ℕ
reference [] a b = (a, b)
reference (d ∷ ds) a b = let a' = (a + d) % adler in reference ds a' ((b + a') % adler)

reference-append :
    (xs ys : List ℕ) (a b : ℕ)
    → let (a', b') = reference xs a b in reference (xs ++ ys) a b ≡ reference ys a' b'
unfolding reference
reference-append [] ys a b = refl
reference-append (x ∷ xs) ys a b = reference-append xs ys _ _

triangle : ℕ → ℕ
triangle zero = 0
triangle (suc n) = triangle n + suc n

triangle_closed : (n : ℕ) → 2 * triangle n ≡ n * (n + 1)
unfolding triangle
triangle_closed zero = refl
triangle_closed (suc n) = omega (arith, triangle_closed n)

-- The largest value that the second sum can reach with `n` more bytes.
abbrev reach : ℕ → ℕ → ℕ → ℕ
reach n a b = b + n * a + 255 * triangle n

reach_step : (n a b d : ℕ) → d ≤ 255 → reach n (a + d) (b + (a + d)) ≤ reach (suc n) a b
unfolding triangle
reach_step n a b d h = omega (arith, scaled)
  where
    scaled : n * d ≤ n * 255
    scaled = grind arith

-- While `reach` fits 32 bits nothing wraps.
no_wrap :
    (n a b d : ℕ)
    → d ≤ 255
    → reach (suc n) a b < 4294967296
    → (add32 a d ≡ a + d) × (add32 b (a + d) ≡ b + (a + d))
unfolding add32 triangle
no_wrap n a b d h fits = omega arith

-- The sums without a wrap or a reduction.
exact : List ℕ → ℕ → ℕ → ℕ × ℕ
exact [] a b = (a, b)
exact (d ∷ ds) a b = exact ds (a + d) (b + (a + d))

add_chunk-exact :
    (ds : List ℕ) (a b : ℕ)
    → All IsByte ds
    → reach (length ds) a b < 4294967296
    → add_chunk ds a b ≡ exact ds a b
unfolding add_chunk exact
add_chunk-exact [] a b h fits = refl
add_chunk-exact (d ∷ ds) a b h fits =
    let (ea, eb) = no_wrap (length ds) a b d (omega arith) fits in
    rw (ea, eb)
      (add_chunk-exact ds (a + d) (b + (a + d)) h.1
        (omega (arith, reach_step (length ds) a b d (omega arith))))

exact-reference :
    (ds : List ℕ) (a b : ℕ)
    → let (a', b') = exact ds a b in (a' % adler, b' % adler) ≡ reference ds (a % adler) (b % adler)
unfolding exact reference
exact-reference [] a b = refl
exact-reference (d ∷ ds) a b =
    let ea : (a % adler + d) % adler ≡ (a + d) % adler = omega arith in
    let eb : (b % adler + (a + d) % adler) % adler ≡ (b + (a + d)) % adler = omega arith in
    rw (ea, eb) (exact-reference ds (a + d) (b + (a + d)))

-- 5552 bytes are the most for which no wrap is possible from reduced sums.
chunk_fits : (n a b : ℕ) → n ≤ 5552 → a < adler → b < adler → reach n a b < 4294967296
chunk_fits n a b h ha hb = omega (arith, triangle_closed n, na, nn)
  where
    na : n * a ≤ 5552 * 65520
    na = grind arith

    nn : n * (n + 1) ≤ 5552 * 5553
    nn = grind arith

add_chunk-reference :
    (ds : List ℕ) (a b : ℕ)
    → All IsByte ds
    → length ds ≤ 5552
    → a < adler
    → b < adler
    → let (a', b') = add_chunk ds a b in (a' % adler, b' % adler) ≡ reference ds a b
add_chunk-reference ds a b h l ha hb =
    let ea : a % adler ≡ a = omega arith in
    let eb : b % adler ≡ b = omega arith in
    rw (add_chunk-exact ds a b h (chunk_fits (length ds) a b l ha hb))
      (rw (ea, eb) at (exact-reference ds a b))

add_chunks-reference :
    (fuel : ℕ) (ds : List ℕ) (a b : ℕ)
    → length ds ≤ fuel
    → All IsByte ds
    → a < adler
    → b < adler
    → add_chunks fuel ds a b ≡ reference ds a b
unfolding add_chunks
add_chunks-reference fuel [] a b l h ha hb = unfold reference in refl
add_chunks-reference zero (d ∷ ds) a b l h ha hb = absurd (omega arith)
add_chunks-reference (suc fuel) (d ∷ ds) a b l h ha hb =
    add_chunks-reference fuel (drop 5552 (d ∷ ds)) _ _ (omega (arith, length-drop 5552 (d ∷ ds)))
      (All-drop IsByte 5552 (d ∷ ds) h) (omega arith) (omega arith)
    ∙ ap (λ (p : ℕ × ℕ). reference (drop 5552 (d ∷ ds)) p.0 p.1)
        (add_chunk-reference (take 5552 (d ∷ ds)) a b (All-take IsByte 5552 (d ∷ ds) h)
          (omega (arith, length-take 5552 (d ∷ ds))) ha hb)
    ∙ sym (reference-append (take 5552 (d ∷ ds)) (drop 5552 (d ∷ ds)) a b)
    ∙ ap (λ (zs : List ℕ). reference zs a b) (take-append-drop 5552 (d ∷ ds))

reference-lt :
    (ds : List ℕ) (a b : ℕ)
    → a < adler
    → b < adler
    → ((reference ds a b).0 < adler) × ((reference ds a b).1 < adler)
unfolding reference
reference-lt [] a b ha hb = (ha, hb)
reference-lt (d ∷ ds) a b ha hb = reference-lt ds _ _ (omega arith) (omega arith)

-- For every byte string that fits a message the checksum is the Adler-32 of RFC 1950: the loop over
-- blocks of 5552 bytes, on 32-bit words that never wrap, gives the sums reduced after every byte,
-- `b` in the upper and `a` in the lower half word.
pub adler_checksum-reference :
    (ds : List ℕ)
    → All IsByte ds
    → length ds ≤ network_message_max_size
    → let (a, b) = reference ds 1 0 in adler_checksum ds ≡ a + b * 2 ^ 16
unfolding adler_checksum
adler_checksum-reference ds h l =
    rw
      (leb_max, add_chunks-reference (length ds) ds 1 0 (omega arith) h (omega arith) (omega arith))
      (let e : b * 2 ^ 16 % 4294967296 ≡ b * 2 ^ 16 = omega (arith, below) in
        rw e (bit_or_disjoint_left 16 a b (omega (arith, below))))
  where
    a : ℕ
    a = (reference ds 1 0).0

    b : ℕ
    b = (reference ds 1 0).1

    below : (a < adler) × (b < adler)
    below = reference-lt ds 1 0 (omega arith) (omega arith)

    leb_max : ltb network_message_max_size (length ds) ≡ false
    leb_max = ground arith

pub adler_checksum-lt :
    (ds : List ℕ)
    → All IsByte ds
    → length ds ≤ network_message_max_size
    → adler_checksum ds < 256 ^ 4
adler_checksum-lt ds h l =
    omega (arith, adler_checksum-reference ds h l, reference-lt ds 1 0 (omega arith) (omega arith))

-- ===== src/Network/Xtea/Blocks.antt =====
-- The cipher of src/xtea.cpp a block at a time, whatever number of lanes the build chooses.
use infernum_data_pack.Base.{
  ℕ, zero, suc, ◌*◌, ◌/◌, ◌^◌, ◌%◌, ◌≤◌, ◌≡◌, refl, sym, ap, ap₂, ◌∙◌, Bool, true, false, List, [],
  ◌∷◌, ◌++◌, map, arith, length, take, drop, take-append-drop, length-take, length-drop,
}
use native.Mathlib.Nat.{mul_assoc}
use infernum_data_pack.Network.Words.{word_of, byte_at, add32, sub32}
use infernum_data_pack.Network.Xtea.{
  Key, Block, delta, encrypt_left, encrypt_right, decrypt_left, decrypt_right, encrypt_rounds,
  decrypt_rounds, load_blocks, store_blocks, xtea_encrypt, xtea_decrypt, crypt, each_step, xtea,
}

abbrev put_block : Block → List ℕ → List ℕ
put_block b rest =
    byte_at b.left 0
    ∷ byte_at b.left 1
    ∷ byte_at b.left 2
    ∷ byte_at b.left 3
    ∷ byte_at b.right 0
    ∷ byte_at b.right 1
    ∷ byte_at b.right 2
    ∷ byte_at b.right 3
    ∷ rest

-- A function on blocks applied to each eight bytes; fewer than eight at the end stay as they are.
unfoldable pub blockwise : (Block → Block) → List ℕ → List ℕ
blockwise g (b0 ∷ b1 ∷ b2 ∷ b3 ∷ b4 ∷ b5 ∷ b6 ∷ b7 ∷ rest) =
    put_block (g (record { left = word_of b0 b1 b2 b3; right = word_of b4 b5 b6 b7 }))
      (blockwise g rest)
blockwise g short = short

-- The rounds on one block.
pub encrypt_lane : Key → ℕ → ℕ → Block → Block
encrypt_lane k zero sum b = b
encrypt_lane k (suc n) sum b =
    let sum' = add32 sum delta in
    encrypt_lane k n sum' (encrypt_right k sum' (encrypt_left k sum b))

pub decrypt_lane : Key → ℕ → ℕ → Block → Block
decrypt_lane k zero sum b = b
decrypt_lane k (suc n) sum b =
    let sum' = sub32 sum delta in
    decrypt_lane k n sum' (decrypt_left k sum' (decrypt_right k sum b))

unfoldable pub lane : Bool → Key → Block → Block
lane true k = encrypt_lane k 32 0
lane false k = decrypt_lane k 32 (delta * 2 ^ 5 % 4294967296)

module _ {ℓ κ μ} {A : Type ℓ} {B : Type κ} {C : Type μ} where
  map-map : (f : B → C) (g : A → B) (xs : List A) → map f (map g xs) ≡ map (λ x. f (g x)) xs
  map-map f g [] = refl
  map-map f g (x ∷ xs) = ap (◌∷◌ (f (g x))) (map-map f g xs)

map_id {ℓ} : {A : Type ℓ} (xs : List A) → map (λ x. x) xs ≡ xs
map_id [] = refl
map_id (x ∷ xs) = ap (◌∷◌ x) (map_id xs)

pub encrypt_rounds-map :
    (k : Key) (n sum : ℕ) (bs : List Block)
    → encrypt_rounds k n sum bs ≡ map (encrypt_lane k n sum) bs
unfolding encrypt_rounds encrypt_lane
encrypt_rounds-map k zero sum [] = refl
encrypt_rounds-map k zero sum (b ∷ bs) = ap (◌∷◌ b) (encrypt_rounds-map k zero sum bs)
encrypt_rounds-map k (suc n) sum bs =
    encrypt_rounds-map k n (add32 sum delta) _ ∙ map-map _ _ _ ∙ map-map _ _ bs

pub decrypt_rounds-map :
    (k : Key) (n sum : ℕ) (bs : List Block)
    → decrypt_rounds k n sum bs ≡ map (decrypt_lane k n sum) bs
unfolding decrypt_rounds decrypt_lane
decrypt_rounds-map k zero sum [] = refl
decrypt_rounds-map k zero sum (b ∷ bs) = ap (◌∷◌ b) (decrypt_rounds-map k zero sum bs)
decrypt_rounds-map k (suc n) sum bs =
    decrypt_rounds-map k n (sub32 sum delta) _ ∙ map-map _ _ _ ∙ map-map _ _ bs

-- Several lanes at once are the blocks one after the other.
store_load :
    (g : Block → Block) (n : ℕ) (xs : List ℕ)
    → length xs ≡ n * 8
    → store_blocks (map g (load_blocks n xs)) ≡ blockwise g xs
unfolding store_blocks load_blocks blockwise
store_load g zero [] h = refl
store_load g zero (x ∷ xs) h = absurd (omega arith)
store_load g (suc n) (b0 ∷ b1 ∷ b2 ∷ b3 ∷ b4 ∷ b5 ∷ b6 ∷ b7 ∷ rest) h =
    ap (put_block (g (record { left = word_of b0 b1 b2 b3; right = word_of b4 b5 b6 b7 })))
      (store_load g n rest (omega arith))
store_load g (suc n) short h = absurd (omega arith)

blockwise-append :
    (g : Block → Block) (n : ℕ) (xs ys : List ℕ)
    → length xs ≡ n * 8
    → blockwise g (xs ++ ys) ≡ blockwise g xs ++ blockwise g ys
unfolding blockwise
blockwise-append g zero [] ys h = refl
blockwise-append g zero (x ∷ xs) ys h = absurd (omega arith)
blockwise-append g (suc n) (b0 ∷ b1 ∷ b2 ∷ b3 ∷ b4 ∷ b5 ∷ b6 ∷ b7 ∷ rest) ys h =
    ap (put_block (g (record { left = word_of b0 b1 b2 b3; right = word_of b4 b5 b6 b7 })))
      (blockwise-append g n rest ys (omega arith))
blockwise-append g (suc n) short ys h = absurd (omega arith)

blockwise_short : (g : Block → Block) (xs : List ℕ) → length xs ≤ 7 → blockwise g xs ≡ xs
unfolding blockwise
blockwise_short g (b0 ∷ b1 ∷ b2 ∷ b3 ∷ b4 ∷ b5 ∷ b6 ∷ b7 ∷ rest) h = absurd (omega arith)
blockwise_short g short h = refl

crypt-blockwise :
    (encrypting : Bool) (m : ℕ) (k : Key) (xs : List ℕ)
    → length xs ≡ m * 8
    → crypt encrypting m k xs ≡ blockwise (lane encrypting k) xs
unfolding crypt xtea_encrypt xtea_decrypt lane
crypt-blockwise true m k xs h = ap store_blocks (encrypt_rounds-map k 32 0 _) ∙ store_load _ m xs h
crypt-blockwise false m k xs h =
    ap store_blocks (decrypt_rounds-map k 32 (delta * 2 ^ 5 % 4294967296) _) ∙ store_load _ m xs h

each_step-blockwise :
    (encrypting : Bool) (m : ℕ) (k : Key) (n : ℕ) (xs : List ℕ)
    → length xs ≡ n * (m * 8)
    → each_step n (m * 8) (crypt encrypting m k) xs ≡ blockwise (lane encrypting k) xs
unfolding each_step
each_step-blockwise encrypting m k zero [] h = unfold blockwise in refl
each_step-blockwise encrypting m k zero (x ∷ xs) h = absurd (omega arith)
each_step-blockwise encrypting m k (suc n) xs h =
    ap₂ ◌++◌ (crypt-blockwise encrypting m k front front_fits)
      (each_step-blockwise encrypting m k n (drop (m * 8) xs) back_fits)
    ∙ sym (blockwise-append (lane encrypting k) m front (drop (m * 8) xs) front_fits)
    ∙ ap (blockwise (lane encrypting k)) (take-append-drop (m * 8) xs)
  where
    front : List ℕ
    front = take (m * 8) xs

    front_fits : length front ≡ m * 8
    front_fits = omega (arith, length-take (m * 8) xs)

    back_fits : length (drop (m * 8) xs) ≡ n * (m * 8)
    back_fits = omega (arith, length-drop (m * 8) xs)

-- The steps over the largest multiple of the step, and the rest by other means.
stepped :
    (encrypting : Bool) (m : ℕ) (k : Key) (n : ℕ) (xs : List ℕ) (rest : List ℕ → List ℕ)
    → n * (m * 8) ≤ length xs
    → rest (drop (n * (m * 8)) xs) ≡ blockwise (lane encrypting k) (drop (n * (m * 8)) xs)
    → each_step n (m * 8) (crypt encrypting m k) (take (n * (m * 8)) xs)
        ++ rest (drop (n * (m * 8)) xs)
      ≡ blockwise (lane encrypting k) xs
stepped encrypting m k n xs rest h e =
    ap₂ ◌++◌ (each_step-blockwise encrypting m k n front front_fits) e
    ∙ sym
        (blockwise-append (lane encrypting k) (n * m) front _ (front_fits ∙ sym (mul_assoc n m 8)))
    ∙ ap (blockwise (lane encrypting k)) (take-append-drop (n * (m * 8)) xs)
  where
    front : List ℕ
    front = take (n * (m * 8)) xs

    front_fits : length front ≡ n * (m * 8)
    front_fits = omega (arith, length-take (n * (m * 8)) xs)

-- For every number of lanes the cipher is the cipher a block at a time: each eight bytes go through
-- the 32 rounds on their own, in order, and up to seven bytes at the end are left alone.
pub xtea-blockwise :
    (encrypting : Bool) (e : ℕ) (k : Key) (xs : List ℕ)
    → xtea encrypting e k xs ≡ blockwise (lane encrypting k) xs
unfolding xtea
xtea-blockwise encrypting zero k xs =
    stepped encrypting 1 k (length xs / 8) xs (λ r. r) (omega arith)
      (sym (blockwise_short _ _ (omega (arith, length-drop (length xs / 8 * 8) xs))))
xtea-blockwise encrypting (suc e) k xs =
    stepped encrypting (2 ^ suc e) k (length xs / (2 ^ suc e * 8)) xs (xtea encrypting e k)
      (grind arith) (xtea-blockwise encrypting e k _)

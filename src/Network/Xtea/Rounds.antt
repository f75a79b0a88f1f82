-- ===== src/Network/Xtea/Rounds.antt =====
-- The rounds of src/xtea.cpp undo each other, in every lane.
use infernum_data_pack.Base.{
  ℕ, zero, suc, ◌*◌, ◌^◌, ◌%◌, ◌≡◌, refl, ap₂, List, [], ◌∷◌, map, All, arith,
}
use infernum_data_pack.Network.Words.{IsU32, add32, sub32, add32-IsU32, sub32-add32}
use infernum_data_pack.Network.Xtea.{
  Key, Block, delta, encrypt_left, encrypt_right, decrypt_left, decrypt_right, encrypt_rounds,
  decrypt_rounds,
}

pub record IsWords (b : Block) : Type 0 where
  pub left_fits : IsU32 b.left
  pub right_fits : IsU32 b.right

module _ (k : Key) where
  round : ℕ → List Block → List Block
  round sum bs = map (encrypt_right k (add32 sum delta)) (map (encrypt_left k sum) bs)

  unround : ℕ → List Block → List Block
  unround sum bs = map (decrypt_left k (sub32 sum delta)) (map (decrypt_right k sum) bs)

  lane_round_trip :
      (sum sum' : ℕ) (b : Block)
      → IsWords b
      → decrypt_left k sum (decrypt_right k sum' (encrypt_right k sum' (encrypt_left k sum b))) ≡ b
  unfolding encrypt_left encrypt_right decrypt_left decrypt_right
  lane_round_trip sum sum' b w =
      rw (sub32-add32 _ _ w.right_fits) (rw (sub32-add32 _ _ w.left_fits))

  unround-round :
      (sum : ℕ) (bs : List Block)
      → IsU32 sum
      → All IsWords bs
      → unround (add32 sum delta) (round sum bs) ≡ bs
  unfolding round unround
  unround-round sum [] h w = refl
  unround-round sum (b ∷ bs) h w = ap₂ ◌∷◌ first (unround-round sum bs h w.1)
    where
      first :
          decrypt_left k (sub32 (add32 sum delta) delta) (
            decrypt_right k
              (add32 sum delta)
              (encrypt_right k (add32 sum delta) (encrypt_left k sum b)))
          ≡ b
      first = rw (sub32-add32 sum delta h) (lane_round_trip sum (add32 sum delta) b w.0)

  round-IsWords : (sum : ℕ) (bs : List Block) → All IsWords (round sum bs)
  unfolding round encrypt_left encrypt_right
  round-IsWords sum [] = tt
  round-IsWords sum (b ∷ bs) =
      (record { left_fits = add32-IsU32 _ _; right_fits = add32-IsU32 _ _ }, round-IsWords sum bs)

  pub encrypt_rounds-IsWords :
      (n sum : ℕ) (bs : List Block) → All IsWords bs → All IsWords (encrypt_rounds k n sum bs)
  unfolding encrypt_rounds
  encrypt_rounds-IsWords zero sum bs w = w
  encrypt_rounds-IsWords (suc n) sum bs w =
      encrypt_rounds-IsWords n (add32 sum delta) _ (unfold round in round-IsWords sum bs)

  -- `sum` after n rounds.
  abbrev sum_after : ℕ → ℕ → ℕ
  sum_after sum zero = sum
  sum_after sum (suc n) = sum_after (add32 sum delta) n

  sum_after_step : (sum n : ℕ) → add32 (sum_after sum n) delta ≡ sum_after sum (suc n)
  sum_after_step sum zero = refl
  sum_after_step sum (suc n) = sum_after_step (add32 sum delta) n

  sum_after-IsU32 : (sum n : ℕ) → IsU32 sum → IsU32 (sum_after sum n)
  sum_after-IsU32 sum zero h = h
  sum_after-IsU32 sum (suc n) h = sum_after-IsU32 (add32 sum delta) n (add32-IsU32 _ _)

  last_round :
      (n sum : ℕ) (bs : List Block)
      → encrypt_rounds k (suc n) sum bs ≡ round (sum_after sum n) (encrypt_rounds k n sum bs)
  unfolding encrypt_rounds round
  last_round zero sum bs = refl
  last_round (suc n) sum bs =
      last_round n (add32 sum delta)
        (map (encrypt_right k (add32 sum delta)) (map (encrypt_left k sum) bs))

  first_unround :
      (n sum : ℕ) (bs : List Block)
      → decrypt_rounds k (suc n) sum bs ≡ decrypt_rounds k n (sub32 sum delta) (unround sum bs)
  unfolding decrypt_rounds unround
  first_unround n sum bs = refl

  rounds_undone :
      (n sum : ℕ) (bs : List Block)
      → IsU32 sum
      → All IsWords bs
      → decrypt_rounds k n (sum_after sum n) (encrypt_rounds k n sum bs) ≡ bs
  rounds_undone zero sum bs h w = unfold encrypt_rounds decrypt_rounds in refl
  rounds_undone (suc n) sum bs h w =
      rw (last_round n sum bs, ← sum_after_step sum n, first_unround)
        (rw
          (
            unround-round t _ (sum_after-IsU32 sum n h) (encrypt_rounds-IsWords n sum bs w),
            sub32-add32 t delta (sum_after-IsU32 sum n h),
          )
          (rounds_undone n sum bs h w))
    where
      t : ℕ
      t = sum_after sum n

  -- The 32 rounds of `XTEA_decrypt`, which start from `delta << 5`, undo those of `XTEA_encrypt`.
  pub decrypt_rounds-encrypt_rounds :
      (bs : List Block)
      → All IsWords bs
      → decrypt_rounds k 32 (delta * 2 ^ 5 % 4294967296) (encrypt_rounds k 32 0 bs) ≡ bs
  decrypt_rounds-encrypt_rounds bs w =
      let e : sum_after 0 32 ≡ delta * 2 ^ 5 % 4294967296 = unfold add32 in refl in
      rw (← e) (rounds_undone 32 0 bs (omega arith) w)

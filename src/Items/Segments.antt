-- ===== src/Items/Segments.antt =====
-- A code with its value is read back (src/item.cpp).
use infernum_data_pack.Base.{
  ℕ, zero, suc, ◌^◌, ◌≤◌, ◌<◌, ◌≡◌, refl, sym, ap, ◌∙◌, subst, fun_ext, Bool, true, false, List, [],
  ◌∷◌, ◌++◌, append_assoc, append-nil, Option, some, length, length-append, ◌==◌, ltb, arith,
  Bool-cases, inl, inr,
}
use infernum_data_pack.Items.{ItemType, Item, got, read_attr, attr_loop, unserialize_attr}
use infernum_data_pack.Items.Writing.{put_int, put_str}
use infernum_data_pack.Items.Saved.{kept}
use infernum_data_pack.Loader.PropStream.{
  read_value, read_string, write_value, write_string, read_value-write_value,
  read_string-write_string,
}
use infernum_data_pack.Network.Memory.{le_bytes}

module _ (custom : List ℕ → Item → Option (Item × List ℕ)) (free : ℕ → Bool) (t : ItemType) where
  -- The bytes are read as a change from one item to another, with fuel of their number and one more.
  pub Good : List ℕ → Item → Item → Type 0
  Good bs i r = (n : ℕ) → length bs ≤ n → attr_loop custom free t (suc n) bs i ≡ some r

  -- A buffer makes a change, whatever follows it.
  pub Reads : List ℕ → (Item → Item) → Type 0
  Reads buffer f = (rest : List ℕ) (i r : Item) → Good rest (f i) r → Good (buffer ++ rest) i r

  loop_step :
      (n attr : ℕ) (bs rest : List ℕ) (i j : Item)
      → (attr == 0) ≡ false
      → read_attr custom free t attr bs i ≡ some (j, rest)
      → attr_loop custom free t (suc n) (attr ∷ bs) i ≡ attr_loop custom free t n rest j
  unfolding attr_loop
  loop_step n attr bs rest i j e h = simp (e, h) refl

  put_Reads :
      (attr : ℕ) (payload buffer : List ℕ) (f set : Item → Item)
      → (attr == 0) ≡ false
      → ((rest : List ℕ) (i : Item)
          → read_attr custom free t attr (payload ++ rest) i ≡ some (set i, rest))
      → Reads buffer f
      → Reads (buffer ++ (attr ∷ payload)) (λ i. set (f i))
  unfolding Reads Good
  put_Reads attr payload buffer f set e reads h rest i r good =
      subst (λ bs. Good bs i r) (sym (append_assoc buffer (attr ∷ payload) rest))
        (h (attr ∷ (payload ++ rest)) i r first)
    where
      first :
          (n : ℕ)
          → length (attr ∷ (payload ++ rest)) ≤ n
          → attr_loop custom free t (suc n) (attr ∷ (payload ++ rest)) (f i) ≡ some r
      first zero l = absurd (omega (arith, l))
      first (suc n) l =
          loop_step (suc n) attr (payload ++ rest) rest (f i) (set (f i)) e (reads rest (f i))
          ∙ good n (omega (arith, l, length-append payload rest))

  pub int_Reads :
      (attr n v : ℕ) (b : Bool) (buffer : List ℕ) (f : Item → Item) (g : Bool → Item → Item)
      (set : ℕ → Item → Item)
      → le_bytes 1 attr ≡ attr ∷ []
      → (attr == 0) ≡ false
      → ((bs : List ℕ) (i : Item)
          → read_attr custom free t attr bs i ≡ got (read_value n bs) (λ w. set w i))
      → (b ≡ true → (i : Item) → g true i ≡ set v i)
      → ((i : Item) → g false i ≡ i)
      → v < 256 ^ n
      → Reads buffer f
      → Reads (put_int attr n b v buffer) (λ i. g b (f i))
  unfolding put_int write_value
  int_Reads attr n v false buffer f g set c e reads yes_set no_set small h =
      subst (λ k. Reads buffer k) (fun_ext (λ i. sym (no_set (f i)))) h
  int_Reads attr n v true buffer f g set c e reads yes_set no_set small h =
      subst (λ bs. Reads bs (λ i. g true (f i)))
        (sym (
          ap (λ l. (buffer ++ l) ++ le_bytes n v) c
          ∙ append_assoc buffer (attr ∷ []) (le_bytes n v)))
        (subst (λ k. Reads (buffer ++ (attr ∷ le_bytes n v)) k)
          (fun_ext (λ i. sym (yes_set refl (f i))))
          (put_Reads attr (le_bytes n v) buffer f (set v) e
            (λ rest i.
              reads (le_bytes n v ++ rest) i
              ∙ ap (λ o. got o (λ w. set w i)) (read_value-write_value n v rest small))
            h))

  write_string_append : (s buffer : List ℕ) → write_string s buffer ≡ buffer ++ write_string s []
  unfolding write_string write_value
  write_string_append s buffer = elim (Bool-cases (ltb 65535 (length s))) [
    | inl e ↦ simp e refl
    | inr e ↦ simp e (append_assoc buffer (le_bytes 2 (length s)) s)
  ]

  pub str_Reads :
      (attr : ℕ) (s buffer : List ℕ) (f : Item → Item) (set : List ℕ → Item → Item)
      → le_bytes 1 attr ≡ attr ∷ []
      → (attr == 0) ≡ false
      → ((bs : List ℕ) (i : Item)
          → read_attr custom free t attr bs i ≡ got (read_string bs) (λ w. set w i))
      → ((i : Item) → set [] i ≡ i)
      → Reads buffer f
      → Reads (put_str attr s buffer) (λ i. set (kept s) (f i))
  unfolding put_str write_value kept
  str_Reads attr [] buffer f set c e reads same h =
      subst (λ k. Reads buffer k) (fun_ext (λ i. sym (same (f i)))) h
  str_Reads attr (x ∷ xs) buffer f set c e reads same h =
      let s = x ∷ xs in
      subst (λ bs. Reads bs (λ i. set (kept s) (f i)))
        (sym (
          write_string_append s (buffer ++ le_bytes 1 attr)
          ∙ (ap (λ l. (buffer ++ l) ++ write_string s []) c
              ∙ append_assoc buffer (attr ∷ []) (write_string s []))))
        (put_Reads attr (write_string s []) buffer f (set (kept s)) e
          (λ rest i.
            reads (write_string s [] ++ rest) i
            ∙ ap (λ o. got o (λ w. set w i)) (read_string-write_string s rest))
          h)

  -- An empty buffer makes no change.
  pub nothing-Reads : Reads [] (λ i. i)
  unfolding Reads
  nothing-Reads rest i r good = good

  -- A buffer that is read as a change is read to its end.
  pub unserialize_attr-Reads :
      (buffer : List ℕ) (f : Item → Item)
      → Reads buffer f
      → (i : Item) → unserialize_attr custom free t buffer i ≡ some (f i)
  unfolding Reads Good unserialize_attr attr_loop
  unserialize_attr-Reads buffer f h i =
      subst (λ bs. unserialize_attr custom free t bs i ≡ some (f i)) (append-nil buffer)
        (h [] i (f i) (λ n l. refl) (length (buffer ++ [])) (omega arith))

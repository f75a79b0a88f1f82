-- ===== src/Containers/Sums.antt =====
-- Sums over item lists, of weights and of occurrences (src/container.cpp).
use infernum_data_pack.Base.{
  ℕ, zero, suc, ◌+◌, ◌%◌, ◌≡◌, ◌≢◌, refl, ap, List, [], ◌∷◌, ◌++◌, Option, none, some, ◌==◌,
  if◌then◌else◌, get_elem?, arith, inl, inr, Bool, true, false, Bool-cases, ==→eq, none_ne_some,
  some_injective,
}
use infernum_data_pack.Containers.{word}
use infernum_data_pack.Containers.Methods.{one_further, index_of, erase_at, put_at}

unfoldable pub sum_of : (ℕ → ℕ) → List ℕ → ℕ
sum_of w [] = 0
sum_of w (x ∷ xs) = w x + sum_of w xs

-- How often an item stands in a list.
abbrev pub times : ℕ → List ℕ → ℕ
times x xs = sum_of (λ y. if y == x then 1 else 0) xs

module _ (w : ℕ → ℕ) where
  pub sum_of-append : (xs : List ℕ) (x : ℕ) → sum_of w (xs ++ x ∷ []) ≡ w x + sum_of w xs
  unfolding sum_of
  sum_of-append [] x = refl
  sum_of-append (y ∷ xs) x = omega (arith, sum_of-append xs x)

  pub sum_of-put_at :
      (i x y : ℕ) (xs : List ℕ)
      → get_elem? xs i ≡ some y
      → sum_of w (put_at i x xs) + w y ≡ sum_of w xs + w x
  unfolding sum_of put_at
  sum_of-put_at i x y [] e = absurd (none_ne_some e)
  sum_of-put_at zero x y (z ∷ xs) e = rw (some_injective e) (omega arith)
  sum_of-put_at (suc i) x y (z ∷ xs) e = omega (arith, sum_of-put_at i x y xs e)

  erased_first :
      (x y i : ℕ) (xs : List ℕ)
      → y ≡ x
      → some 0 ≡ some i
      → sum_of w (erase_at i (y ∷ xs)) + w x ≡ w y + sum_of w xs
  unfolding sum_of erase_at
  erased_first x y zero xs f e = rw f (omega arith)
  erased_first x y (suc i) xs f e = absurd (ground (arith, some_injective e))

  erased_later :
      (x y i : ℕ) (xs : List ℕ) (o : Option ℕ)
      → ((j : ℕ) → o ≡ some j → sum_of w (erase_at j xs) + w x ≡ sum_of w xs)
      → one_further o ≡ some i
      → sum_of w (erase_at i (y ∷ xs)) + w x ≡ w y + sum_of w xs
  unfolding sum_of erase_at
  erased_later x y i xs none g e = absurd (none_ne_some e)
  erased_later x y zero xs (some j) g e = absurd (ground (arith, some_injective e))
  erased_later x y (suc i) xs (some j) g e =
      omega (arith, g i (ap some (ground (arith, some_injective e))))

  pub sum_of-erase_at :
      (i x : ℕ) (xs : List ℕ)
      → index_of x xs ≡ some i
      → sum_of w (erase_at i xs) + w x ≡ sum_of w xs
  unfolding sum_of erase_at index_of
  sum_of-erase_at i x [] e = absurd (none_ne_some e)
  sum_of-erase_at i x (y ∷ xs) e = elim (Bool-cases (y == x)) [
    | inl f ↦ erased_first x y i xs (==→eq y x f) (simp f at e)
    | inr f ↦ erased_later x y i xs (index_of x xs) (λ j. sum_of-erase_at j x xs) (simp f at e)
  ]

rest_absent : (b : Bool) (t n : ℕ) → b ≡ false → (if b then 1 else 0) + t ≡ n → t ≡ n
rest_absent b t n e h = ground (arith, e, h)

rest_present : (b : Bool) (t : ℕ) → b ≡ true → (if b then 1 else 0) + t ≡ 1 → t ≡ 0
rest_present b t e h = ground (arith, e, h)

-- The weight of one item changes by `d`.
module _ (v w : ℕ → ℕ) (x d : ℕ) (other : (i : ℕ) → i ≢ x → v i ≡ w i) where
  pub sum_of_same : (xs : List ℕ) → times x xs ≡ 0 → sum_of v xs ≡ sum_of w xs
  unfolding sum_of
  sum_of_same [] h = refl
  sum_of_same (y ∷ xs) h = elim (Bool-cases (y == x)) [
    | inl e ↦ absurd (ground (arith, h, e))
    | inr e ↦
        omega (
          arith,
          other y (λ f. ground (arith, e, f)),
          sum_of_same xs (rest_absent (y == x) _ 0 e h),
        )
  ]

  pub sum_of_changed :
      v x % word ≡ (w x + d) % word
      → (xs : List ℕ) → times x xs ≡ 1
      → sum_of v xs % word ≡ (sum_of w xs + d) % word
  unfolding sum_of
  sum_of_changed c [] h = absurd (ground (arith, h))
  sum_of_changed c (y ∷ xs) h = elim (Bool-cases (y == x)) [
    | inl e ↦ first (==→eq y x e) (sum_of_same xs (rest_present (y == x) _ e h))
    | inr e ↦ omega (
      arith,
      other y (λ f. ground (arith, e, f)),
      sum_of_changed c xs (rest_absent (y == x) _ 1 e h),
    )
  ]
    where
      first :
          y ≡ x
          → sum_of v xs ≡ sum_of w xs
          → (v y + sum_of v xs) % word ≡ (w y + sum_of w xs + d) % word
      first f g = rw (f, g) (omega (arith, c))

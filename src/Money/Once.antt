-- ===== src/Money/Once.antt =====
-- `removeMoney` takes from no item twice (src/game.cpp).
use infernum_data_pack.Base.{
  ℕ, zero, suc, ◌+◌, ◌-◌, ◌*◌, ◌/◌, ◌%◌, ◌≤◌, ◌≡◌, refl, ◌∙◌, ap, true, List, [], ◌∷◌, ◌++◌, min,
  if◌then◌else◌, ◌==◌, ltb, arith, Bool-cases, inl, inr, false,
}
use infernum_data_pack.Containers.{in_container, Kinds, Store, word}
use infernum_data_pack.Containers.Sums.{sum_of, times}
use infernum_data_pack.Containers.Nesting.{is_inside, held_in, Rooted, root_cases, Listed-of}
use infernum_data_pack.Containers.Balance.{held_outside}
use infernum_data_pack.Containers.Intact.{IsIntact}
use infernum_data_pack.Containers.Under.{under, under_all, under_unique}
use infernum_data_pack.Money.{
  platinum_coin, gold_coin, long_word, Call, removes, adds, crystal_stacks, stack, add_small,
  add_money, remove_count, pay,
}

abbrev pub is_item : ℕ → ℕ → ℕ
is_item y x = if x == y then 1 else 0

-- How often an item is taken from.
unfoldable pub removals : ℕ → List Call → ℕ
removals y [] = 0
removals y (removes x count ∷ calls) = is_item y x + removals y calls
removals y (adds id count ∷ calls) = removals y calls

-- How often an item is an entry of `moneyMap`.
unfoldable pub entries_of : ℕ → List (ℕ × ℕ) → ℕ
entries_of y [] = 0
entries_of y (e ∷ entries) = is_item y e.1 + entries_of y entries

removals-append : (y : ℕ) (a b : List Call) → removals y (a ++ b) ≡ removals y a + removals y b
unfolding removals
removals-append y [] b = omega arith
removals-append y (removes x count ∷ a) b = omega (arith, removals-append y a b)
removals-append y (adds id count ∷ a) b = removals-append y a b

removals-crystal_stacks : (y n coins : ℕ) → removals y (crystal_stacks n coins) ≡ 0
unfolding removals crystal_stacks
removals-crystal_stacks y zero coins = refl
removals-crystal_stacks y (suc n) coins = elim (Bool-cases (ltb 0 coins)) [
  | inl e ↦ simp e (removals-crystal_stacks y n (coins - min 100 coins))
  | inr e ↦ simp e refl
]

removals-stack : (y id count : ℕ) → removals y (stack id count) ≡ 0
unfolding removals
removals-stack y id count = elim (Bool-cases (count == 0)) [
  | inl e ↦ simp e refl
  | inr e ↦ simp e refl
]

removals-gold : (y r : ℕ) → removals y (if r == 0 then [] else adds gold_coin (r % 65536) ∷ []) ≡ 0
unfolding removals
removals-gold y r = elim (Bool-cases (r == 0)) [ inl e ↦ simp e refl | inr e ↦ simp e refl ]

removals-add_small : (y money : ℕ) → removals y (add_small money) ≡ 0
unfolding add_small
removals-add_small y money =
    removals-append y (stack platinum_coin (money / 100 % 65536)) _
    ∙ omega (
      arith,
      removals-stack y platinum_coin (money / 100 % 65536),
      removals-gold y ((money + long_word - money / 100 % 65536 * 100) % long_word),
    )

-- To give change takes nothing.
removals-add_money : (y money : ℕ) → removals y (add_money money) ≡ 0
unfolding add_money
removals-add_money y money = elim (Bool-cases (money == 0)) [
  | inl e ↦ simp e (unfold removals in refl)
  | inr e ↦ simp e (
      removals-append y (crystal_stacks (money / 10000 % word) (money / 10000 % word)) _
      ∙ omega (
        arith,
        removals-crystal_stacks y (money / 10000 % word) (money / 10000 % word),
        removals-add_small y
            ((money + long_word - money / 10000 % word * 10000 % word) % long_word),
      ))
]

-- An item is taken from no more often than it is an entry.
pub removals-pay :
    (k : Kinds) (s : Store) (y : ℕ) (entries : List (ℕ × ℕ)) (money : ℕ)
    → removals y (pay k s entries money) ≤ entries_of y entries
unfolding removals entries_of pay
removals-pay k s y [] money = omega arith
removals-pay k s y ((w, x) ∷ entries) money = elim (Bool-cases (ltb w money)) [
  | inl e ↦ simp e (omega (arith, removals-pay k s y entries (money - w)))
  | inr e ↦ elim (Bool-cases (ltb money w)) [
    | inl f ↦
        simp (e, f)
          (omega (
            arith,
            removals-append y
                (add_money (w / s.count x * remove_count money (w / s.count x) - money))
                (removes x (remove_count money (w / s.count x)) ∷ []),
            removals-add_money y (w / s.count x * remove_count money (w / s.count x) - money),
          ))
    | inr f ↦ simp (e, f) (omega arith)
  ]
]

sum_of-le : (v w : ℕ → ℕ) (xs : List ℕ) → ((x : ℕ) → v x ≤ w x) → sum_of v xs ≤ sum_of w xs
unfolding sum_of
sum_of-le v w [] h = omega arith
sum_of-le v w (x ∷ xs) h = omega (arith, h x, sum_of-le v w xs h)

sum_of-add : (v w : ℕ → ℕ) (xs : List ℕ) → sum_of (λ x. v x + w x) xs ≡ sum_of v xs + sum_of w xs
unfolding sum_of
sum_of-add v w [] = refl
sum_of-add v w (x ∷ xs) = omega (arith, sum_of-add v w xs)

sum_of-eq : (v w : ℕ → ℕ) (xs : List ℕ) → ((x : ℕ) → v x ≡ w x) → sum_of v xs ≡ sum_of w xs
unfolding sum_of
sum_of-eq v w [] h = refl
sum_of-eq v w (x ∷ xs) h = omega (arith, h x, sum_of-eq v w xs h)

none_more : {a b : ℕ} → b ≡ 0 → a + b ≡ a
none_more h = omega arith

same_item : (x y : ℕ) → is_item x y ≡ is_item y x
same_item x y = ground arith

module _ (s : Store) where
  under-le : (v w : ℕ → ℕ) (m c : ℕ) → ((x : ℕ) → v x ≤ w x) → under s m v c ≤ under s m w c
  unfolding under
  under-le v w zero c h = omega arith
  under-le v w (suc m) c h =
      sum_of-le _ _ (s.itemlist c) (λ x. omega (arith, h x, under-le v w m x h))

  pub total-le :
      (v w : ℕ → ℕ) (n : ℕ) (xs : List ℕ)
      → ((x : ℕ) → v x ≤ w x)
      → sum_of (λ x. v x + under s n v x) xs ≤ sum_of (λ x. w x + under s n w x) xs
  total-le v w n xs h = sum_of-le _ _ xs (λ x. omega (arith, h x, under-le v w n x h))

  module _ (k : Kinds) (n : ℕ) (intact : IsIntact k n s) where
    listed : (y c : ℕ) → times y (s.itemlist c) ≡ held_in (s.parent y) c
    listed y c = Listed-of s.parent s.itemlist n y (intact.rooted y) c

    -- What lies in no container lies in none at any depth.
    under-outside : (y x : ℕ) → is_inside (s.parent y) ≡ false → under s n (is_item y) x ≡ 0
    under-outside y x h =
        under_unique s k n intact (is_item y) (λ c. 0)
          (λ c.
            sum_of-eq _ (is_item y) (s.itemlist c) (λ j. omega arith)
            ∙ listed y c
            ∙ held_outside (s.parent y) c h)
          x

    -- What lies in `p` lies where `p` is or lies.
    under-within :
        (y p x : ℕ)
        → s.parent y ≡ in_container p
        → under s n (is_item y) x ≡ is_item p x + under s n (is_item p) x
    under-within y p x h =
        under_unique s k n intact (is_item y) (λ c. is_item p c + under s n (is_item p) c)
          (λ c.
            sum_of-add (is_item y) (λ j. is_item p j + under s n (is_item p) j) (s.itemlist c)
            ∙ omega (
              arith,
              listed y c,
              ap (λ q. held_in q c) h,
              same_item p c,
              under_all s k n intact (is_item p) c,
            ))
          x

    module _ (xs : List ℕ) (single : (y : ℕ) → times y xs ≤ 1)
        (out : (y : ℕ) → is_inside (s.parent y) ≡ true → times y xs ≡ 0) where
      -- No item stands twice among the items of a list and in them.
      occurs :
          (m y : ℕ)
          → Rooted s.parent s.itemlist m y
          → sum_of (λ x. is_item y x + under s n (is_item y) x) xs ≤ 1
      occurs zero y r = elim r [ ]
      occurs (suc m) y r = elim (root_cases s.parent s.itemlist m y r) [
        | inl (l, e) ↦ omega (
          arith,
          single y,
          sum_of-eq (λ x. is_item y x + under s n (is_item y) x) (is_item y) xs
              (λ x. none_more (under-outside y x e)),
        )
        | inr (l, (p, e, up)) ↦ omega (
          arith,
          occurs m p up,
          sum_of-add (is_item y) (under s n (is_item y)) xs,
          out y (ap is_inside e),
          sum_of-eq (under s n (is_item y)) (λ x. is_item p x + under s n (is_item p) x) xs
              (λ x. under-within y p x e),
        )
      ]

      pub occurs_once : (y : ℕ) → sum_of (λ x. is_item y x + under s n (is_item y) x) xs ≤ 1
      occurs_once y = occurs n y (intact.rooted y)

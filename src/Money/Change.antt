-- ===== src/Money/Change.antt =====
-- What the coins that `addMoney` gives are worth (src/game.cpp).
use infernum_data_pack.Base.{
  ℕ, zero, suc, ◌+◌, ◌-◌, ◌*◌, ◌/◌, ◌%◌, ◌≤◌, ◌<◌, ◌≡◌, refl, min, List, [], ◌∷◌, ◌++◌, All,
  All-append, ◌==◌, ltb, if◌then◌else◌, arith, Bool-cases, inl, inr, ==→eq,
}
use infernum_data_pack.Containers.{word}
use infernum_data_pack.Money.{
  gold_coin, platinum_coin, worth_of, Call, removes, adds, crystal_stacks, stack, add_small,
  add_money, long_word,
}

-- What the new items are worth.
unfoldable pub given : List Call → ℕ
given [] = 0
given (removes x count ∷ calls) = given calls
given (adds id count ∷ calls) = worth_of id count + given calls

-- A new item is a stack of one to a hundred.
unfoldable pub IsStack : Call → Type 0
IsStack (removes x count) = ⊥
IsStack (adds id count) = (0 < count) × (count ≤ 100)

pub given-append : (a b : List Call) → given (a ++ b) ≡ given a + given b
unfolding given
given-append [] b = omega arith
given-append (removes x count ∷ a) b = given-append a b
given-append (adds id count ∷ a) b = omega (arith, given-append a b)

given-crystal_stacks :
    (n coins : ℕ)
    → coins ≤ n
    → (given (crystal_stacks n coins) ≡ coins * 10000) × All IsStack (crystal_stacks n coins)
unfolding given crystal_stacks worth_of IsStack
given-crystal_stacks zero coins h = (omega arith, tt)
given-crystal_stacks (suc n) coins h = elim (Bool-cases (ltb 0 coins)) [
  | inl e ↦
      (let (worth, stacks) =
          given-crystal_stacks n (coins - min 100 coins) (ground (arith, h, e)) in
        (
          simp e (positive worth (ground (arith, e))),
          simp e (((ground (arith, e), omega arith), stacks)),
        ))
  | inr e ↦ (simp e (ground (arith, e)), simp e tt)
]
  where
    positive :
        {g : ℕ}
        → g ≡ (coins - min 100 coins) * 10000
        → 0 < coins
        → min 100 coins * 10000 + g ≡ coins * 10000
    positive e h = omega arith

given-stack :
    (id count : ℕ) → (given (stack id count) ≡ (if count == 0 then 0 else worth_of id count))
unfolding given
given-stack id count = elim (Bool-cases (count == 0)) [
  | inl e ↦ simp e refl
  | inr e ↦ simp e (omega arith)
]

abbrev IsChange : ℕ → List Call → Type 0
IsChange money calls = (given calls ≡ money) × All IsStack calls

platinum-IsChange : (p : ℕ) → p ≤ 99 → IsChange (p * 100) (stack platinum_coin p)
unfolding given worth_of IsStack
platinum-IsChange p h = elim (Bool-cases (p == 0)) [
  | inl e ↦ simp e (ground (arith, e), tt)
  | inr e ↦ simp e (omega arith, ((ground (arith, e), omega arith), tt))
]

gold-IsChange :
    (r : ℕ) → r ≤ 99 → IsChange r (if r == 0 then [] else adds gold_coin (r % 65536) ∷ [])
unfolding given worth_of IsStack
gold-IsChange r h = elim (Bool-cases (r == 0)) [
  | inl e ↦ simp e (ground (arith, e), tt)
  | inr e ↦ simp e (omega arith, ((ground (arith, e), omega arith), tt))
]

append-IsChange :
    (m n k : ℕ) (a b : List Call) → m + n ≡ k → IsChange m a → IsChange n b → IsChange k (a ++ b)
append-IsChange m n k a b e h i =
    (omega (arith, given-append a b, h.0, i.0), All-append IsStack a b h.1 i.1)

-- Less than a crystal coin's worth is given in platinum and gold coins.
add_small-IsChange : (money : ℕ) → money < 10000 → IsChange money (add_small money)
unfolding add_small
add_small-IsChange money h =
    append-IsChange _ _ money (stack platinum_coin (money / 100 % 65536)) _ (omega arith)
      (platinum-IsChange (money / 100 % 65536) (omega arith))
      (gold-IsChange ((money + long_word - money / 100 % 65536 * 100) % long_word) (omega arith))

none_given : {money : ℕ} → money ≡ 0 → given [] ≡ money
unfolding given
none_given e = omega arith

-- Up to what a `uint32_t` holds, `addMoney` gives coins that are worth the amount, in stacks of one to a
-- hundred.
pub add_money-IsChange :
    (money : ℕ) → money < word → (given (add_money money) ≡ money) × All IsStack (add_money money)
unfolding add_money
add_money-IsChange money h = elim (Bool-cases (money == 0)) [
  | inl e ↦ simp e (none_given (==→eq money 0 e), tt)
  | inr e ↦ simp e (
      append-IsChange _ _ money _ _ (omega arith)
        (given-crystal_stacks (money / 10000 % word) (money / 10000 % word) (omega arith))
        (add_small-IsChange ((money + long_word - money / 10000 % word * 10000 % word) % long_word)
          (omega arith)))
]

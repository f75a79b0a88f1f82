-- ===== src/Money/Paying.antt =====
-- What `removeMoney` takes from the coins that it found (src/game.cpp).
use native.Mathlib.Nat.{mul-div_cancel}
use infernum_data_pack.Base.{
  ℕ, ◌+◌, ◌-◌, ◌*◌, ◌/◌, ◌≤◌, ◌<◌, ◌≡◌, ◌⊎◌, refl, ap, ◌∙◌, subst, false, List, [], ◌∷◌, ◌++◌, All,
  All-append, ◌==◌, ltb, arith, Bool-cases, inl, inr, ltb→lt,
}
use infernum_data_pack.Containers.{Kinds, Store, word}
use infernum_data_pack.Money.{
  gold_coin, platinum_coin, crystal_coin, worth_of, get_worth, Call, removes, adds, add_money,
  remove_count, pay,
}
use infernum_data_pack.Money.Change.{given, given-append, add_money-IsChange, IsStack}

-- Coins of an ID are worth so much each.
EachWorth : ℕ → ℕ → Type 0
EachWorth id u = (c : ℕ) → worth_of id c ≡ u * c

worth_of-cases :
    (id n : ℕ) → 0 < worth_of id n → EachWorth id 1 ⊎ (EachWorth id 100 ⊎ EachWorth id 10000)
unfolding worth_of EachWorth
worth_of-cases id n h = elim (Bool-cases (id == gold_coin)) [
  | inl e ↦ inl (λ c. simp e (omega arith))
  | inr e ↦ elim (Bool-cases (id == platinum_coin)) [
    | inl f ↦ inr (inl (λ c. simp (e, f) (omega arith)))
    | inr f ↦ elim (Bool-cases (id == crystal_coin)) [
      | inl g ↦ inr (inr (λ c. simp (e, f, g) (omega arith)))
      | inr g ↦ absurd (ground (arith, simp (e, f, g) at h))
    ]
  ]
]

-- The number of coins to take: at least one, no more than there are, and worth the money or more, by
-- less than a crystal coin.
Suffices : ℕ → ℕ → ℕ → ℕ → Type 0
Suffices u count money c = (0 < c) × (c ≤ count) × (money ≤ u * c) × (u * c - money < word)

module _ (count money : ℕ) (some_money : 0 < money) where
  by_gold : money < 1 * count → Suffices 1 count money (remove_count money 1)
  unfolding Suffices
  by_gold h = (omega arith, omega arith, omega arith, omega arith)

  by_platinum : money < 100 * count → Suffices 100 count money (remove_count money 100)
  unfolding Suffices
  by_platinum h = (omega arith, omega arith, omega arith, omega arith)

  by_crystal : money < 10000 * count → Suffices 10000 count money (remove_count money 10000)
  unfolding Suffices
  by_crystal h = (omega arith, omega arith, omega arith, omega arith)

module _ (s : Store) where
  -- What the items taken are worth.
  unfoldable pub taken : List Call → ℕ
  taken [] = 0
  taken (removes x count ∷ calls) = worth_of (s.id x) count + taken calls
  taken (adds id count ∷ calls) = taken calls

  -- A part of the stack is taken, or a stack of one to a hundred is given.
  unfoldable pub IsFair : Call → Type 0
  IsFair (removes x count) = (0 < count) × (count ≤ s.count x)
  IsFair (adds id count) = (0 < count) × (count ≤ 100)

  -- An entry of `moneyMap`: what the item is worth, and the item.
  unfoldable pub IsEntry : ℕ × ℕ → Type 0
  IsEntry e = (e.0 ≡ get_worth s e.1) × (0 < e.0)

  -- The calls take the money and what they give back.
  unfoldable pub Pays : ℕ → List Call → Type 0
  Pays money calls = (taken calls ≡ money + given calls) × All IsFair calls

  taken-append : (a b : List Call) → taken (a ++ b) ≡ taken a + taken b
  unfolding taken
  taken-append [] b = omega arith
  taken-append (removes x count ∷ a) b = omega (arith, taken-append a b)
  taken-append (adds id count ∷ a) b = taken-append a b

  only_given : (a : List Call) → All IsStack a → (taken a ≡ 0) × All IsFair a
  unfolding taken IsStack IsFair
  only_given [] h = (refl, tt)
  only_given (removes x count ∷ a) h = absurd (h.0)
  only_given (adds id count ∷ a) h = (let (t, f) = only_given a h.1 in (t, (h.0, f)))

  change_given :
      (u x money c : ℕ)
      → EachWorth (s.id x) u
      → Suffices u (s.count x) money c
      → Pays money (add_money (u * c - money) ++ removes x c ∷ [])
  unfolding EachWorth Suffices Pays given taken IsFair
  change_given u x money c each h =
      let calls = add_money (u * c - money) in
      let (worth, stacks) = add_money-IsChange (u * c - money) h.3 in
      let (none_taken, fair) = only_given calls stacks in
      (
        omega (
          arith,
          taken-append calls (removes x c ∷ []),
          given-append calls (removes x c ∷ []),
          worth,
          none_taken,
          each c,
          h.2,
        ),
        All-append IsFair calls (removes x c ∷ []) fair ((h.0, h.1), tt),
      )

  taken_whole :
      (w x money : ℕ) (calls : List Call)
      → IsEntry (w, x)
      → 0 < s.count x
      → Pays money calls
      → Pays (w + money) (removes x (s.count x) ∷ calls)
  unfolding IsEntry Pays taken given IsFair
  taken_whole w x money calls e c h = (omega (arith, e.0, h.0), ((c, omega arith), h.1))

  worth_count : (id n : ℕ) → 0 < worth_of id n → 0 < n
  unfolding worth_of
  worth_count id n h = ground (arith, h)

  module _ (k : Kinds) where
    partly :
        (u x money w : ℕ)
        → EachWorth (s.id x) u
        → 0 < s.count x
        → w ≡ u * s.count x
        → Suffices u (s.count x) money (remove_count money u)
        → Pays money (
            add_money (w / s.count x * remove_count money (w / s.count x) - money)
            ++ removes x (remove_count money (w / s.count x)) ∷ [])
    partly u x money w each some_coins e h =
        let quotient : w / s.count x ≡ u =
          ap (λ v. v / s.count x) e ∙ mul-div_cancel u some_coins in
        rw quotient (change_given u x money _ each h)

    partly_any :
        (x money w : ℕ)
        → IsEntry (w, x)
        → 0 < money
        → money < w
        → Pays money (
            add_money (w / s.count x * remove_count money (w / s.count x) - money)
            ++ removes x (remove_count money (w / s.count x)) ∷ [])
    unfolding IsEntry EachWorth
    partly_any x money w e pos less =
        let positive : 0 < worth_of (s.id x) (s.count x) = omega (arith, e.0, e.1) in
        let coins = worth_count (s.id x) (s.count x) positive in
        elim (worth_of-cases (s.id x) (s.count x) positive) [
          | inl each ↦
              (let whole : w ≡ 1 * s.count x = e.0 ∙ each (s.count x) in
                partly 1 x money w each coins whole (by_gold (s.count x) money pos (omega arith)))
          | inr (inl each) ↦
              (let whole : w ≡ 100 * s.count x = e.0 ∙ each (s.count x) in
                partly 100 x money w each coins whole
                  (by_platinum (s.count x) money pos (omega arith)))
          | inr (inr each) ↦
              (let whole : w ≡ 10000 * s.count x = e.0 ∙ each (s.count x) in
                partly 10000 x money w each coins whole
                  (by_crystal (s.count x) money pos (omega arith)))
        ]

    entry_count : (w x : ℕ) → IsEntry (w, x) → 0 < s.count x
    unfolding IsEntry
    entry_count w x e = worth_count (s.id x) (s.count x) (omega (arith, e.0, e.1))

    sum_back : {w money : ℕ} → w < money → w + (money - w) ≡ money
    sum_back h = omega arith

    same_back : (w money : ℕ) → ltb w money ≡ false → ltb money w ≡ false → w + 0 ≡ money
    same_back w money e f = ground (arith, e, f)

    paid : Pays 0 []
    unfolding Pays taken given
    paid = (omega arith, tt)

    unfoldable pub sum_of_entries : List (ℕ × ℕ) → ℕ
    sum_of_entries [] = 0
    sum_of_entries (e ∷ entries) = e.0 + sum_of_entries entries

    pub pay-Pays :
        (entries : List (ℕ × ℕ)) (money : ℕ)
        → All IsEntry entries
        → 0 < money
        → money ≤ sum_of_entries entries
        → Pays money (pay k s entries money)
    unfolding pay sum_of_entries IsEntry
    pay-Pays [] money h pos le = absurd (omega arith)
    pay-Pays ((w, x) ∷ entries) money h pos le = elim (Bool-cases (ltb w money)) [
      | inl e ↦ simp e (
          subst (λ v. Pays v (removes x (s.count x) ∷ pay k s entries (money - w)))
            (sum_back (ltb→lt w money e))
            (taken_whole w x (money - w) (pay k s entries (money - w)) h.0 (entry_count w x h.0)
              (pay-Pays entries (money - w) h.1 (ground (arith, e)) (ground (arith, e, le)))))
      | inr e ↦ elim (Bool-cases (ltb money w)) [
        | inl f ↦ simp (e, f) (partly_any x money w h.0 pos (ltb→lt money w f))
        | inr f ↦
            simp (e, f)
              (subst (λ v. Pays v (removes x (s.count x) ∷ [])) (same_back w money e f)
                (taken_whole w x 0 [] h.0 (entry_count w x h.0) paid))
      ]
    ]

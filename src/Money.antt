-- ===== src/Money.antt =====
-- `Game::removeMoney` and `Game::addMoney` (src/game.cpp): which coins are taken and which are given. The
-- calls of `internalRemoveItem` and `internalAddItem` are written down as a list.
pub mod Change
pub mod Once
pub mod Paying
pub mod Finding
pub mod Removal
use infernum_data_pack.Base.{
  ℕ, zero, suc, ◌+◌, ◌-◌, ◌*◌, ◌/◌, ◌%◌, min, Bool, true, false, List, [], ◌∷◌, ◌++◌, Option, none,
  some, ◌==◌, ltb, if◌then◌else◌,
}
use infernum_data_pack.Containers.{Kinds, Store, Thing, item, creature, word}

-- `ITEM_GOLD_COIN`, `ITEM_PLATINUM_COIN` and `ITEM_CRYSTAL_COIN`
abbrev pub gold_coin : ℕ
gold_coin = 2148

abbrev pub platinum_coin : ℕ
platinum_coin = 2152

abbrev pub crystal_coin : ℕ
crystal_coin = 2160

-- The values of a `uint64_t`.
abbrev pub long_word : ℕ
long_word = 18446744073709551616

-- `Item::getWorth` of an item with this ID and count.
unfoldable pub worth_of : ℕ → ℕ → ℕ
worth_of id count =
    if id == gold_coin
    then count
    else if id == platinum_coin
    then count * 100
    else if id == crystal_coin
    then count * 10000
    else 0

abbrev pub get_worth : Store → ℕ → ℕ
get_worth s x = worth_of (s.id x) (s.count x)

-- A call of `internalRemoveItem`, for an item and a count, or of `internalAddItem`, for a new item with an
-- ID and a count; an item that does not fit is put on the tile.
pub data Call : Type 0 where
  removes : ℕ → ℕ → Call
  adds : ℕ → ℕ → Call

-- The loop for the stacks of crystal coins; `n` is the number of its rounds at most.
unfoldable pub crystal_stacks : ℕ → ℕ → List Call
crystal_stacks zero coins = []
crystal_stacks (suc n) coins =
    let count = min 100 coins in
    let rest = crystal_stacks n (coins - count) in
    if ltb 0 coins then adds crystal_coin count ∷ rest else []

abbrev pub stack : ℕ → ℕ → List Call
stack id count = if count == 0 then [] else adds id count ∷ []

-- After the crystal coins.
unfoldable pub add_small : ℕ → List Call
add_small money =
    let platinum_coins = money / 100 % 65536 in
    let rest = (money + long_word - platinum_coins * 100) % long_word in
    stack platinum_coin platinum_coins
    ++ (if rest == 0 then [] else adds gold_coin (rest % 65536) ∷ [])

-- The product is computed as a `uint32_t`.
unfoldable pub add_money : ℕ → List Call
add_money money =
    let crystal_coins = money / 10000 % word in
    let rest = (money + long_word - crystal_coins * 10000 % word) % long_word in
    if money == 0 then [] else crystal_stacks crystal_coins crystal_coins ++ add_small rest

-- `moneyMap.emplace`: behind the entries that are worth as much.
unfoldable pub emplace : ℕ × ℕ → List (ℕ × ℕ) → List (ℕ × ℕ)
emplace e [] = e ∷ []
emplace e (f ∷ fs) = let rest = emplace e fs in if ltb e.0 f.0 then e ∷ f ∷ fs else f ∷ rest

-- `containers` from the index on, `moneyMap` and `moneyCount`.
pub record Search : Type 0 where
  pub containers : List ℕ
  pub money_map : List (ℕ × ℕ)
  pub money_count : ℕ

-- The quotient in floating point, rounded up, is exact for these numbers.
abbrev pub remove_count : ℕ → ℕ → ℕ
remove_count money worth = (money + worth - 1) / worth

module _ (k : Kinds) (s : Store) where
  unfoldable pub find_item : ℕ → Search → Search
  find_item x a =
      if k.is_container x
      then record a { containers = a.containers ++ x ∷ [] }
      else if get_worth s x == 0
      then a
      else record a {
        money_map = emplace (get_worth s x, x) a.money_map;
        money_count = (a.money_count + get_worth s x) % long_word;
      }

  unfoldable pub find_items : List ℕ → Search → Search
  find_items [] a = a
  find_items (x ∷ xs) a = find_items xs (find_item x a)

  -- What `getThing` gives for the indices of the cylinder, null pointers included.
  unfoldable pub find_things : List (Option Thing) → Search → Search
  find_things [] a = a
  find_things (some (item x) ∷ things) a = find_things things (find_item x a)
  find_things (some creature ∷ things) a = find_things things a
  find_things (none ∷ things) a = find_things things a

  -- The loop over `containers`; `none` when there are more than `n`.
  unfoldable pub find_inside : ℕ → List ℕ → Search → Option Search
  find_inside n [] a = some a
  find_inside zero (c ∷ cs) a = none
  find_inside (suc n) (c ∷ cs) a =
      let b = find_items (s.itemlist c) (record a { containers = cs }) in
      find_inside n b.containers b

  unfoldable pub pay : List (ℕ × ℕ) → ℕ → List Call
  pay [] money = []
  pay ((w, x) ∷ entries) money =
      let rest = pay entries (money - w) in
      let worth = w / s.count x in
      let count = remove_count money worth in
      if ltb w money
      then removes x (s.count x) ∷ rest
      else if ltb money w
      then add_money (worth * count - money) ++ removes x count ∷ []
      else removes x (s.count x) ∷ []

  unfoldable pub pay_found : ℕ → Option Search → Option (Bool × List Call)
  pay_found money none = none
  pay_found money (some a) =
      if ltb a.money_count money then some (false, []) else some (true, pay a.money_map money)

  unfoldable pub remove_money : ℕ → List (Option Thing) → ℕ → Option (Bool × List Call)
  remove_money n things money =
      let a = find_things things (record { containers = []; money_map = []; money_count = 0 }) in
      if money == 0 then some (true, []) else pay_found money (find_inside n a.containers a)

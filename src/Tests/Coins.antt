-- ===== src/Tests/Coins.antt =====
-- A player with gold coins in the inventory and platinum coins in a box in a bag (src/game.cpp).
use infernum_data_pack.Base.{
  ℕ, ◌+◌, ◌<◌, ◌≤◌, ◌≡◌, refl, true, false, List, [], ◌∷◌, All, Option, none, some, ◌==◌,
  if◌then◌else◌, arith,
}
use infernum_data_pack.Containers.{
  in_container, Store, Thing, item, set_parent, set_itemlist, set_total_weight, get_weight,
  item_weight,
}
use infernum_data_pack.Containers.Methods.{
  wherever, update_item_weight, internal_add_thing, add_thing,
}
use infernum_data_pack.Containers.Query.{
  query_add, query_add_item, after_parents, query_top, query_parents, climb,
}
use infernum_data_pack.Containers.Sums.{sum_of, times}
use infernum_data_pack.Containers.Nesting.{is_inside}
use infernum_data_pack.Containers.Intact.{IsIntact}
use infernum_data_pack.Containers.Reachable.{Reachable, empty, added, Reachable-IsIntact}
use infernum_data_pack.Containers.Under.{under}
use infernum_data_pack.Money.{
  Call, removes, adds, worth_of, gold_coin, platinum_coin, add_money, crystal_stacks, add_small,
  remove_money, emplace, find_item, find_items, find_things, find_inside, pay, pay_found,
}
use infernum_data_pack.Money.Change.{given, IsStack, add_money-IsChange}
use infernum_data_pack.Money.Once.{removals}
use infernum_data_pack.Money.Paying.{taken, IsFair}
use infernum_data_pack.Money.Finding.{items_of}
use infernum_data_pack.Money.Removal.{fortune, remove_money-Pays}
use infernum_data_pack.Tests.Boxes.{kinds, ask, apart}

-- Item 5 is a stack of thirty platinum coins, item 6 one of thirty gold coins.
abbrev coins : Store
coins = record apart { id = λ i. if i == 5 then platinum_coin else if i == 6 then gold_coin else i }

abbrev bagged : Store
bagged = set_total_weight 1 700 (set_itemlist 1 (2 ∷ []) (set_parent 2 (in_container 1) coins))

abbrev rich : Store
rich =
    set_total_weight 1 1400
      (set_total_weight 2 700 (set_itemlist 2 (5 ∷ []) (set_parent 5 (in_container 2) bagged)))

rich-Reachable : Reachable kinds ask 4 rich
unfolding add_thing internal_add_thing update_item_weight get_weight item_weight query_add
    query_add_item after_parents query_top query_parents climb
rich-Reachable =
    added 2 2 2 wherever 5 30 0 bagged rich
      (added 1 1 1 wherever 2 1 0 coins bagged
        (empty coins (λ c. refl) (λ c. refl) (λ i. ground arith)) (omega arith) refl refl refl refl
        refl)
      (omega arith) refl refl refl refl refl

rich-IsIntact : IsIntact kinds 4 rich
rich-IsIntact = Reachable-IsIntact kinds ask 4 rich rich-Reachable

-- The bag, an empty slot and the gold coins.
abbrev slots : List (Option Thing)
slots = some (item 1) ∷ none ∷ some (item 6) ∷ []

-- All gold coins go, and thirteen platinum coins, for which 96 gold coins come back.
remove_money_test :
    remove_money kinds rich 2 slots 1234
    ≡ some (true, removes 6 30 ∷ adds gold_coin 96 ∷ removes 5 13 ∷ [])
unfolding remove_money find_things find_item find_items find_inside emplace worth_of pay pay_found
    add_money crystal_stacks add_small
remove_money_test = refl

slots_single : (y : ℕ) → times y (items_of slots) ≤ 1
unfolding sum_of items_of
slots_single y = ground arith

slots_outside : (y : ℕ) → is_inside (rich.parent y) ≡ true → times y (items_of slots) ≡ 0
unfolding sum_of items_of
slots_outside y h = ground (arith, h)

remove_money-Pays_example :
    (fortune kinds rich 4 rich-IsIntact slots < 1234
      → remove_money kinds rich 2 slots 1234 ≡ some (false, []))
    × (1234 ≤ fortune kinds rich 4 rich-IsIntact slots
        → (calls : List Call) × (remove_money kinds rich 2 slots 1234 ≡ some (true, calls))
          × (taken rich calls ≡ 1234 + given calls)
          × All (IsFair rich) calls
          × ((y : ℕ) → removals y calls ≤ 1))
unfolding under sum_of items_of worth_of
remove_money-Pays_example =
    remove_money-Pays kinds rich 4 rich-IsIntact slots 2 (omega arith) 1234 (omega arith)
      slots_single slots_outside

add_money-IsChange_example : (given (add_money 1234567) ≡ 1234567) × All IsStack (add_money 1234567)
add_money-IsChange_example = add_money-IsChange 1234567 (omega arith)

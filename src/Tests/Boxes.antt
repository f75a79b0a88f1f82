-- ===== src/Tests/Boxes.antt =====
-- Containers that hold a box, which holds an item (src/container.cpp).
use infernum_data_pack.Base.{
  ℕ, ◌%◌, ◌≡◌, refl, true, false, List, [], ◌∷◌, none, some, ◌==◌, ◌||◌, if◌then◌else◌, arith,
}
use infernum_data_pack.Containers.{
  nowhere, in_container, on_tile, Kinds, Store, item, word, set_parent, set_itemlist,
  set_total_weight, get_weight, item_weight,
}
use infernum_data_pack.Containers.Methods.{
  wherever, update_item_weight, internal_add_thing, add_thing, remove_thing,
}
use infernum_data_pack.Containers.Query.{
  ReturnValue, no_error, query_add, query_add_item, after_parents, query_top, query_parents, climb,
}
use infernum_data_pack.Containers.Iterator.{iterator, visit, is_holding_item}
use infernum_data_pack.Containers.Sums.{sum_of, times}
use infernum_data_pack.Containers.Intact.{IsIntact, Leaves}
use infernum_data_pack.Containers.Admission.{Admits, query_add-Admits}
use infernum_data_pack.Containers.Answers.{query_add_answers}
use infernum_data_pack.Containers.Removing.{remove_thing-Leaves}
use infernum_data_pack.Containers.Reachable.{Reachable, empty, added, Reachable-IsIntact}
use infernum_data_pack.Containers.Under.{under}
use infernum_data_pack.Containers.Holding.{Inside, visit-Inside, is_holding_item-Inside}

-- A bag 1 and a box 2; coins have ID 5 and weigh 10 each, all else weighs 700.
abbrev pub kinds : Kinds
kinds = record {
  is_container = λ i. i == 1 || i == 2;
  capacity = λ i. 8;
  unlocked = λ i. true;
  is_inbox = λ i. false;
  weight_attribute = λ i. none;
  on_map = λ i. true;
  weight = λ t. if t == 5 then 10 else 700;
  stackable = λ t. t == 5;
  is_fluid = λ t. false;
  has_charges = λ t. false;
  pickupable = λ t. true;
  moveable = λ t. true;
}

abbrev pub ask : ℕ → ℕ → ℕ → ℕ → ReturnValue
ask player x count flags = no_error

-- The bag lies on a tile, the box and a stack of thirty coins lie nowhere.
abbrev pub apart : Store
apart = record {
  itemlist = λ i. [];
  total_weight = λ i. 0;
  parent = λ i. if i == 1 then on_tile else nowhere;
  id = λ i. i;
  count = λ i. 30;
  fluid_type = λ i. 0;
  charges = λ i. 0;
}

-- The box was put into the bag.
abbrev packed : Store
packed = set_total_weight 1 700 (set_itemlist 1 (2 ∷ []) (set_parent 2 (in_container 1) apart))

-- The coins were put into the box.
abbrev full : Store
full =
    set_total_weight 1 1000
      (set_total_weight 2 300 (set_itemlist 2 (5 ∷ []) (set_parent 5 (in_container 2) packed)))

packed-Reachable : Reachable kinds ask 2 packed
unfolding add_thing internal_add_thing update_item_weight get_weight item_weight query_add
    query_add_item after_parents query_top query_parents climb
packed-Reachable =
    added 1 1 1 wherever 2 1 0 apart packed
      (empty apart (λ c. refl) (λ c. refl) (λ i. ground arith)) (omega arith) refl refl refl refl
      refl

full-Reachable : Reachable kinds ask 4 full
unfolding add_thing internal_add_thing update_item_weight get_weight item_weight query_add
    query_add_item after_parents query_top query_parents climb
full-Reachable =
    added 2 2 2 wherever 5 30 0 packed full packed-Reachable (omega arith) refl refl refl refl refl

Reachable-IsIntact_example : IsIntact kinds 4 full
Reachable-IsIntact_example = Reachable-IsIntact kinds ask 4 full full-Reachable

full_sound : IsIntact kinds 4 full
full_sound = Reachable-IsIntact kinds ask 4 full full-Reachable

-- The box, in which the coins lie, is taken out of the bag.
remove_thing-Leaves_example : Leaves kinds 8 (remove_thing kinds 4 1 (item 2) 30 full)
remove_thing-Leaves_example =
    remove_thing-Leaves kinds 4 4 1 full full_sound (omega arith) (item 2) 30

visit-Inside_example :
    (xs : List ℕ) × (visit kinds full 2 (iterator kinds full 1) ≡ some xs)
    × ((x : ℕ) → Inside full.parent 1 x → times x xs ≡ 1)
    × ((x : ℕ) → ¬ Inside full.parent 1 x → times x xs ≡ 0)
    × (full.total_weight 1 ≡ sum_of (item_weight kinds full) xs % word)
unfolding under sum_of
visit-Inside_example = visit-Inside kinds full 4 2 1 full_sound (omega arith)

is_holding_item-Inside_example :
    (Inside full.parent 1 5 → is_holding_item kinds full 2 1 5 ≡ some true)
    × (¬ Inside full.parent 1 5 → is_holding_item kinds full 2 1 5 ≡ some false)
unfolding under sum_of
is_holding_item-Inside_example = is_holding_item-Inside kinds full 4 2 1 full_sound (omega arith) 5

-- The box is asked for the coins.
query_add-Admits_example : Admits kinds packed 2 wherever 5 0
unfolding query_add query_add_item after_parents query_top query_parents climb
query_add-Admits_example = query_add-Admits kinds packed ask 2 2 wherever 5 30 0 refl refl

-- The box is asked for the bag that it lies in.
query_add_answers_example :
    (v : ReturnValue) × (query_add kinds ask 4 2 wherever (item 1) 1 0 full ≡ some v)
query_add_answers_example =
    query_add_answers kinds full ask 4 2 wherever (full_sound.rooted 2) (item 1) 1 0

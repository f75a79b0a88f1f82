-- ===== src/Tests/Goods.antt =====
-- Items (src/item.cpp) and the path search (src/map.cpp).
use infernum_data_pack.Base.{
  ℕ, ◌%◌, ◌^◌, ◌<◌, ◌≡◌, refl, true, false, List, [], ◌∷◌, Option, none, some, ◌==◌, ◌&&◌, leb,
  if◌then◌else◌, arith, Bool-cases, inl, inr, some_injective, none_ne_some,
}
use infernum_data_pack.Abilities.{
  Abilities, ability_start, ability_end, unserialize_ability, serialize_ability,
}
use infernum_data_pack.Abilities.RoundTrip.{or_else, unserialize_ability-serialize_ability}
use infernum_data_pack.Items.{ItemType, Item, unserialize_attr}
use infernum_data_pack.Items.Writing.{saved_charges, serialize_attr}
use infernum_data_pack.Items.RoundTrip.{unserialize_attr_charges_for_count}
use infernum_data_pack.PathFinding.{AStarNodes, start_nodes, create_open_node, get_best_node}
use infernum_data_pack.PathFinding.BestNode.{IsBest, get_best_node-IsBest}

abbrev blank : Item
blank = record {
  count = 1;
  fluid_type = none;
  charges = none;
  action_id = none;
  unique_id = none;
  text = [];
  date = none;
  writer = [];
  description = [];
  duration = none;
  decay_state = none;
  name = [];
  article = [];
  plural_name = [];
  weight = none;
  attack = none;
  defense = none;
  extra_defense = none;
  armor = none;
  hit_chance = none;
  shoot_range = none;
}

abbrev arrows : ItemType
arrows = record { stackable = true; is_fluid = false; charged = false; moveable = true }

-- Fifty arrows with a name, an action and three charges.
abbrev quiver : Item
quiver = record blank { count = 50; charges = some 3; action_id = some 2000; name = 97 ∷ 98 ∷ [] }

abbrev no_custom : List ℕ → Item → Option (Item × List ℕ)
no_custom bs i = none

unserialize_attr_charges_for_count_example :
    (j : Item) × (unserialize_attr no_custom
        (λ n. true)
        arrows
        (serialize_attr arrows quiver [])
        blank
      ≡ some j)
    × (j.count ≡ saved_charges quiver % 256)
unserialize_attr_charges_for_count_example =
    unserialize_attr_charges_for_count no_custom (λ n. true) arrows quiver blank refl refl refl

-- The search from (100, 100) with one neighbour opened.
abbrev two_nodes : AStarNodes
two_nodes = (create_open_node (some 0) 101 100 10 (start_nodes 100 100)).0

get_best_node-IsBest_example : IsBest two_nodes two_nodes.cur_node (get_best_node two_nodes)
get_best_node-IsBest_example = get_best_node-IsBest two_nodes

-- A ring that gives three points of mana.
abbrev ring : Abilities
ring j = if j == 3 then some 3 else none

ring_fits : (j v : ℕ) → ring j ≡ some v → v < 2 ^ 64
ring_fits j v e = elim (Bool-cases (j == 3)) [
  | inl q ↦ (let k : 3 ≡ v = some_injective (simp q at e) in omega (arith, k))
  | inr q ↦ absurd (none_ne_some (simp q at e))
]

unserialize_ability-serialize_ability_example :
    unserialize_ability (serialize_ability ring []) (λ j. none)
    ≡ some (λ j. if leb ability_start j && leb j ability_end then or_else (ring j) none else none)
unserialize_ability-serialize_ability_example =
    unserialize_ability-serialize_ability ring (λ j. none) ring_fits

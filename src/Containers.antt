-- ===== src/Containers.antt =====
-- src/container.cpp and src/container.h: what containers hold and weigh. Items, containers among them,
-- are known by numbers. What is sent to the clients is left out.
pub mod Methods
pub mod Query
pub mod Iterator
pub mod Sums
pub mod Nesting
pub mod Balance
pub mod Intact
pub mod Changing
pub mod Removing
pub mod Replacing
pub mod Admission
pub mod Answers
pub mod Reachable
pub mod Under
pub mod Visits
pub mod Holding
pub mod Adding
use infernum_data_pack.Base.{
  ℕ, ◌+◌, ◌-◌, ◌*◌, ◌%◌, max, Bool, true, false, List, [], Option, none, some, ◌==◌, if◌then◌else◌,
}

-- `Thing::getParent` of an item: nothing, a container, a tile or a player.
pub data Parent : Type 0 where
  nowhere : Parent
  in_container : ℕ → Parent
  on_tile : Parent
  carried_by : ℕ → Parent

-- A thing that is moved: an item, or a creature, whose `getItem` is null.
pub data Thing : Type 0 where
  item : ℕ → Thing
  creature : Thing

-- What does not change: of the objects, and, by item ID, of the table `Item::items`.
pub record Kinds : Type 0 where
  pub is_container : ℕ → Bool
  pub capacity : ℕ → ℕ
  pub unlocked : ℕ → Bool
  pub is_inbox : ℕ → Bool
  -- `ITEM_ATTRIBUTE_WEIGHT`, where the item has it
  pub weight_attribute : ℕ → Option ℕ
  -- whether the player stands on a tile
  pub on_map : ℕ → Bool
  pub weight : ℕ → ℕ
  pub stackable : ℕ → Bool
  pub is_fluid : ℕ → Bool
  pub has_charges : ℕ → Bool
  pub pickupable : ℕ → Bool
  pub moveable : ℕ → Bool

pub record Store : Type 0 where
  pub itemlist : ℕ → List ℕ
  pub total_weight : ℕ → ℕ
  pub parent : ℕ → Parent
  pub id : ℕ → ℕ
  pub count : ℕ → ℕ
  pub fluid_type : ℕ → ℕ
  pub charges : ℕ → ℕ

-- The values of a `uint32_t`.
abbrev pub word : ℕ
word = 4294967296

-- A negative `int32_t`, as what it adds to a `uint32_t`.
abbrev pub negative : ℕ → ℕ
negative w = word - w % word

abbrev pub write {ℓ} : {A : Type ℓ} → (ℕ → A) → ℕ → A → ℕ → A
write f p v q = if p == q then v else f q

abbrev pub is_nil {ℓ} : {A : Type ℓ} → List A → Bool
is_nil [] = true
is_nil _ = false

abbrev pub set_parent : ℕ → Parent → Store → Store
set_parent i p s = record s { parent = write s.parent i p }

abbrev pub set_itemlist : ℕ → List ℕ → Store → Store
set_itemlist c xs s = record s { itemlist = write s.itemlist c xs }

abbrev pub set_total_weight : ℕ → ℕ → Store → Store
set_total_weight c w s = record s { total_weight = write s.total_weight c w }

abbrev pub set_item_count : ℕ → ℕ → Store → Store
set_item_count i n s = record s { count = write s.count i (n % 256) }

-- The removal of attributes about decay and corpses is left out.
abbrev pub set_id : ℕ → ℕ → Store → Store
set_id i new s = record s { id = write s.id i new }

module _ (k : Kinds) where
  abbrev pub is_stackable : Store → ℕ → Bool
  is_stackable s i = k.stackable (s.id i)

  unfoldable pub set_sub_type : ℕ → ℕ → Store → Store
  set_sub_type i n s =
      if k.is_fluid (s.id i)
      then record s { fluid_type = write s.fluid_type i n }
      else if k.stackable (s.id i)
      then set_item_count i n s
      else if k.has_charges (s.id i)
      then record s { charges = write s.charges i n }
      else set_item_count i n s

  abbrev pub attribute_or : Option ℕ → ℕ → ℕ
  attribute_or none w = w
  attribute_or (some a) w = a % word

  abbrev pub base_weight : Store → ℕ → ℕ
  base_weight s i = attribute_or (k.weight_attribute i) (k.weight (s.id i))

  -- `Item::getWeight`
  unfoldable pub item_weight : Store → ℕ → ℕ
  item_weight s i =
      if k.stackable (s.id i) then base_weight s i * max 1 (s.count i) % word else base_weight s i

  -- `getWeight`, which containers override.
  unfoldable pub get_weight : Store → ℕ → ℕ
  get_weight s i =
      if k.is_container i then (item_weight s i + s.total_weight i) % word else item_weight s i

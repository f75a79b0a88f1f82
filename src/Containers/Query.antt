-- ===== src/Containers/Query.antt =====
-- `Container::queryAdd`, `queryRemove` and `Item::getTopParent` (src/container.cpp, src/item.cpp): what
-- may be moved into and out of a container. `n` is the number of containers that the loops may climb
-- through; `none` says that there were more.
use infernum_data_pack.Base.{
  ℕ, zero, suc, Bool, true, false, not, ◌==◌, ◌&&◌, ◌||◌, Option, none, some, leb, ltb, length,
  bit_and, bit_or, if◌then◌else◌,
}
use infernum_data_pack.Containers.{
  Parent, nowhere, in_container, carried_by, Kinds, Store, Thing, item, creature, is_stackable,
}
use infernum_data_pack.Containers.Methods.{Index, wherever, at, get_thing_index}

pub data ReturnValue : Type 0 where
  no_error : ReturnValue
  not_possible : ReturnValue
  cannot_pickup : ReturnValue
  this_is_impossible : ReturnValue
  container_not_enough_room : ReturnValue
  not_moveable : ReturnValue

-- The cylinders that `getTopParent` of a container finds.
pub data Cylinder : Type 0 where
  container : ℕ → Cylinder
  player : ℕ → Cylinder

-- Members of `cylinderflags_t`
abbrev pub flag_no_limit : ℕ
flag_no_limit = 1

abbrev pub flag_child_is_owner : ℕ
flag_child_is_owner = 8

abbrev pub flag_ignore_not_moveable : ℕ
flag_ignore_not_moveable = 64

abbrev pub has_bit_set : ℕ → ℕ → Bool
has_bit_set flag flags = not (bit_and flags flag == 0)

abbrev pub is_nowhere : Parent → Bool
is_nowhere nowhere = true
is_nowhere _ = false

abbrev pub is_wherever : Index → Bool
is_wherever wherever = true
is_wherever (at i) = false

module _ (k : Kinds) where
  -- The loops over the parents. Tiles and players are neither the thing nor an inbox.
  unfoldable pub query_parents : ℕ → Bool → ℕ → Parent → Store → Option ReturnValue
  query_parents zero limited x q s = none
  query_parents (suc n) limited x (in_container p) s =
      let rest = query_parents n limited x (s.parent p) s in
      if p == x
      then some this_is_impossible
      else if limited && k.is_inbox p
      then some container_not_enough_room
      else rest
  query_parents (suc n) limited x _ s = some no_error

  unfoldable pub climb : ℕ → Cylinder → Parent → Store → Option Cylinder
  climb zero prev q s = none
  climb (suc n) prev (in_container p) s =
      let rest = climb n (container p) (s.parent p) s in
      if is_nowhere (s.parent p) then some prev else rest
  climb (suc n) prev (carried_by q) s = some (if k.on_map q then player q else prev)
  climb (suc n) prev _ s = some prev

  abbrev pub get_top_parent : ℕ → ℕ → Store → Option Cylinder
  get_top_parent n c s = climb n (container c) (s.parent c) s

  -- `player_query_add` is `Player::queryAdd` for a player, an item, a count and flags.
  module _ (player_query_add : ℕ → ℕ → ℕ → ℕ → ReturnValue) (n c : ℕ) where
    -- A container answers at once when its child asks.
    unfoldable pub query_top : ℕ → ℕ → ℕ → Option Cylinder → Option ReturnValue
    query_top x count flags none = none
    query_top x count flags (some (container p)) = some no_error
    query_top x count flags (some (player q)) =
        some (player_query_add q x count (bit_or flags flag_child_is_owner))

    unfoldable pub after_parents :
        Index → ℕ → ℕ → ℕ → Store → Option ReturnValue → Option ReturnValue
    after_parents i x count flags s (some no_error) =
        if not (has_bit_set flag_no_limit flags)
          && is_wherever i
          && leb (k.capacity c) (length (s.itemlist c))
        then some container_not_enough_room
        else query_top x count flags (get_top_parent n c s)
    after_parents i x count flags s r = r

    unfoldable pub query_add_item : Index → Thing → ℕ → ℕ → Store → Option ReturnValue
    query_add_item i creature count flags s = some not_possible
    query_add_item i (item x) count flags s =
        if not (k.pickupable (s.id x))
        then some cannot_pickup
        else if x == c
        then some this_is_impossible
        else after_parents i x count flags s
            (query_parents n (not (has_bit_set flag_no_limit flags)) x (s.parent c) s)

    unfoldable pub query_add : Index → Thing → ℕ → ℕ → Store → Option ReturnValue
    query_add i thing count flags s =
        if has_bit_set flag_child_is_owner flags
        then some no_error
        else if not (k.unlocked c)
        then some not_possible
        else query_add_item i thing count flags s

  unfoldable pub query_remove_found : Thing → ℕ → ℕ → Store → Option ℕ → ReturnValue
  query_remove_found (item x) count flags s (some i) =
      if count == 0 || is_stackable k s x && ltb (s.count x) count
      then not_possible
      else if not (k.moveable (s.id x)) && not (has_bit_set flag_ignore_not_moveable flags)
      then not_moveable
      else no_error
  query_remove_found _ count flags s _ = not_possible

  unfoldable pub query_remove : ℕ → Thing → ℕ → ℕ → Store → ReturnValue
  query_remove c thing count flags s =
      query_remove_found thing count flags s (get_thing_index c thing s)

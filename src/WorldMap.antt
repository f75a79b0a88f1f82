-- ===== src/WorldMap.antt =====
-- The quad tree of the map's tiles: `QTreeNode`, `QTreeLeafNode` and `Floor` of src/map.h, and the
-- functions of src/map.cpp that read and write tiles. A tile is a value of any type.
pub mod Levels
pub mod Leaves
pub mod Tiles
pub mod Writes
use infernum_data_pack.Base.{
  ℕ, zero, suc, ◌+◌, ◌-◌, ◌*◌, ◌/◌, ◌%◌, Bool, true, false, Option, none, some, ◌==◌, ◌&&◌, leb,
  if◌then◌else◌,
}

-- `MAP_MAX_LAYERS`, `FLOOR_SIZE`, and the levels of `createLeaf(x, y, 15)` down to `FLOOR_BITS`.
abbrev pub map_max_layers : ℕ
map_max_layers = 16

abbrev pub floor_size : ℕ
floor_size = 8

abbrev pub levels : ℕ
levels = 13

module _ {ℓ} (T : Type ℓ) where
  -- `Floor::tiles`
  abbrev pub Floor : Type ℓ
  Floor = ℕ → ℕ → Option T

  -- `array`, `leafS` and `leafE`; a pointer to a leaf is the pair of its coordinates in floors.
  pub record QTreeLeaf : Type ℓ where
    pub floors : ℕ → Option Floor
    pub leaf_south : Option (ℕ × ℕ)
    pub leaf_east : Option (ℕ × ℕ)

  -- A pointer to a node: null, a node with its four children by the
  -- two bits of the index, or a leaf.
  pub data QTree : Type ℓ where
    missing : QTree
    node : (Bool → Bool → QTree) → QTree
    leaf : QTreeLeaf → QTree

abbrev pub empty_floor {ℓ} : {T : Type ℓ} → Floor T
empty_floor x y = none

abbrev pub new_leaf {ℓ} : {T : Type ℓ} → QTreeLeaf T
new_leaf = record { floors = λ z. none; leaf_south = none; leaf_east = none }

-- `(x & 0x8000) >> 15`
unfoldable pub is_high : ℕ → Bool
is_high x = x / 32768 % 2 == 1

abbrev pub same_bit : Bool → Bool → Bool
same_bit true b = b
same_bit false true = false
same_bit false false = true

-- `child[((x & 0x8000) >> 15) | ((y & 0x8000) >> 14)] = t`, by the two bits.
abbrev pub put {ℓ} :
    {T : Type ℓ} → Bool → Bool → QTree T → (Bool → Bool → QTree T) → Bool → Bool → QTree T
put i j t child p q = if same_bit i p && same_bit j q then t else child p q

module _ {ℓ} {T : Type ℓ} where
  -- `getLeaf`
  unfoldable pub get_leaf : ℕ → ℕ → QTree T → Option (QTreeLeaf T)
  unfolding is_high
  get_leaf x y missing = none
  get_leaf x y (leaf l) = some l
  get_leaf x y (node child) = get_leaf (x * 2) (y * 2) (child (is_high x) (is_high y))

  -- `createLeaf` below a pointer with `n` levels under it; a null pointer becomes a node or, on the last
  -- level, a leaf.
  unfoldable pub create_leaf : ℕ → ℕ → ℕ → QTree T → QTree T
  unfolding is_high
  create_leaf zero x y missing = leaf new_leaf
  create_leaf zero x y (node child) = node child
  create_leaf zero x y (leaf l) = leaf l
  create_leaf (suc n) x y missing =
      node (put (is_high x) (is_high y) (create_leaf n (x * 2) (y * 2) missing) (λ p q. missing))
  create_leaf (suc n) x y (node child) = node (
      put (is_high x) (is_high y) (create_leaf n (x * 2) (y * 2) (child (is_high x) (is_high y)))
        child)
  create_leaf (suc n) x y (leaf l) = leaf l

  -- What is written through the pointer that `getLeaf` returns.
  unfoldable pub change_leaf : ℕ → ℕ → (QTreeLeaf T → QTreeLeaf T) → QTree T → QTree T
  unfolding is_high
  change_leaf x y f missing = missing
  change_leaf x y f (leaf l) = leaf (f l)
  change_leaf x y f (node child) = node (
      put (is_high x) (is_high y) (change_leaf (x * 2) (y * 2) f (child (is_high x) (is_high y)))
        child)

-- The world: its root, which is a node and never a leaf, and the functions that read and write a tile.
module _ {ℓ} {T : Type ℓ} where
  -- `getTile`; `x & FLOOR_MASK` is `x % 8`.
  abbrev pub floor_tile : ℕ → ℕ → Option (Floor T) → Option T
  floor_tile x y none = none
  floor_tile x y (some f) = f (x % floor_size) (y % floor_size)

  abbrev pub leaf_tile : ℕ → ℕ → ℕ → Option (QTreeLeaf T) → Option T
  leaf_tile x y z none = none
  leaf_tile x y z (some l) = floor_tile x y (l.floors z)

  unfoldable pub get_tile : ℕ → ℕ → ℕ → QTree T → Option T
  get_tile x y z root = if leb map_max_layers z then none else leaf_tile x y z (get_leaf x y root)

  abbrev pub point_south : ℕ → ℕ → QTreeLeaf T → QTreeLeaf T
  point_south x y l = record l { leaf_south = some (x % 65536 / 8, y % 65536 / 8) }

  abbrev pub point_east : ℕ → ℕ → QTreeLeaf T → QTreeLeaf T
  point_east x y l = record l { leaf_east = some (x % 65536 / 8, y % 65536 / 8) }

  abbrev pub is_there : Option (QTreeLeaf T) → Bool
  is_there none = false
  is_there (some l) = true

  -- The four updates after a leaf was made. `y - FLOOR_SIZE` wraps in 32 bits, of which the tree reads
  -- the lower 16.
  unfoldable pub link_leaf : ℕ → ℕ → QTree T → QTree T
  link_leaf x y root =
      let north = (y + 65536 - floor_size) % 65536 in
      let west = (x + 65536 - floor_size) % 65536 in
      let root1 = change_leaf x north (point_south x y) root in
      let root2 = change_leaf west y (point_east x y) root1 in
      let root3 =
        if is_there (get_leaf x (y + floor_size) root2)
        then change_leaf x y (point_south x (y + floor_size)) root2
        else root2 in
      if is_there (get_leaf (x + floor_size) y root3)
      then change_leaf x y (point_east (x + floor_size) y) root3
      else root3

  -- `createFloor`
  abbrev pub floor_or_new : Option (Floor T) → Floor T
  floor_or_new none = empty_floor
  floor_or_new (some f) = f

  module _ (merge : T → T → T) where
    -- Writing to `floor->tiles[offsetX][offsetY]`; `merge` is what `addThing` makes of the tile that is there
    -- and the things of the new one.
    abbrev pub tile_or : Option T → T → T
    tile_or none t = t
    tile_or (some old) t = merge old t

    abbrev pub put_in_floor : ℕ → ℕ → T → Floor T → Floor T
    put_in_floor x y t f u v = if u == x && v == y then some (tile_or (f u v) t) else f u v

    unfoldable pub put_in_leaf : ℕ → ℕ → ℕ → T → QTreeLeaf T → QTreeLeaf T
    put_in_leaf x y z t l = record l {
      floors = λ w.
          if w == z
          then some (put_in_floor (x % floor_size) (y % floor_size) t (floor_or_new (l.floors z)))
          else l.floors w;
    }

    unfoldable pub set_tile : ℕ → ℕ → ℕ → T → QTree T → QTree T
    set_tile x y z t root =
        if leb map_max_layers z
        then root
        else (let root1 = create_leaf levels x y root in
            let root2 = if is_there (get_leaf x y root) then root1 else link_leaf x y root1 in
            change_leaf x y (put_in_leaf x y z t) root2)

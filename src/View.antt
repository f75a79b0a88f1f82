-- ===== src/View.antt =====
-- What a client is shown of the map: `canSee`, `GetMapDescription`, `GetFloorDescription` and
-- `checkCreatureAsKnown` of src/protocolgame.cpp.
pub mod Skips
pub mod Columns
pub mod Window
pub mod Known
use infernum_data_pack.Base.{
  ℕ, zero, suc, ◌+◌, ◌-◌, ◌%◌, Bool, true, false, not, List, [], ◌∷◌, ◌++◌, Option, none, some,
  length, ◌==◌, ◌&&◌, ltb, leb, min, if◌then◌else◌,
}
use infernum_data_pack.Position.{Position}

-- `canSee(x, y, z)` of a player at `my`. The source subtracts on `int32_t`; here the terms that it subtracts
-- stand on the other side.
unfoldable pub can_see : Position → ℕ → ℕ → ℕ → Bool
can_see my x y z =
    if (if leb my.z 7 then leb z 7 else leb my.z (z + 2) && leb z (my.z + 2))
    then leb (my.x + my.z) (x + 8 + z)
      && leb (x + z) (my.x + 9 + my.z)
      && leb (my.y + my.z) (y + 6 + z)
      && leb (y + z) (my.y + 7 + my.z)
    else false

-- The floors that `GetMapDescription` goes through, in order.
unfoldable pub floors_up : ℕ → ℕ → List ℕ
floors_up zero z = []
floors_up (suc n) z = z ∷ floors_up n (z + 1)

unfoldable pub floors_seen : ℕ → List ℕ
unfolding floors_up
floors_seen z =
    if ltb 7 z
    then floors_up (min 15 (z + 2) + 1 - (z - 2)) (z - 2)
    else 7 ∷ 6 ∷ 5 ∷ 4 ∷ 3 ∷ 2 ∷ 1 ∷ 0 ∷ []

-- What is written to the message: the description of a tile, or the bytes `skip` and 0xFF.
pub data Part {ℓ} (T : Type ℓ) : Type ℓ where
  tile_part : T → Part T
  skip_part : ℕ → Part T

-- `skip`, where `none` is -1, and what has been written.
pub record Writing {ℓ} (T : Type ℓ) : Type ℓ where
  pub skip : Option ℕ
  pub written : List (Part T)

module _ {ℓ} {T : Type ℓ} where
  abbrev pub flush : Option ℕ → List (Part T)
  flush none = []
  flush (some n) = skip_part n ∷ []

  -- The body of the loops of `GetFloorDescription`.
  unfoldable pub describe_place : Option T → Writing T → Writing T
  describe_place (some t) w = record {
    skip = some 0;
    written = w.written ++ (flush w.skip ++ (tile_part t ∷ []));
  }
  describe_place none w = elim (w.skip) [
    | none ↦ record w { skip = some 0 }
    | some n ↦
        if n == 254
        then record { skip = none; written = w.written ++ (skip_part 255 ∷ []) }
        else record w { skip = some (n + 1) }
  ]

  -- `getTile` takes its coordinates modulo 2 ^ 16; `x`, `y` and `offset` are given so.
  module _ (get_tile : ℕ → ℕ → ℕ → Option T) where
    unfoldable pub describe_column : ℕ → ℕ → ℕ → ℕ → Writing T → Writing T
    unfolding describe_place
    describe_column zero x y z w = w
    describe_column (suc n) x y z w =
        describe_column n x (y + 1) z (describe_place (get_tile (x % 65536) (y % 65536) z) w)

    unfoldable pub describe_columns : ℕ → ℕ → ℕ → ℕ → ℕ → Writing T → Writing T
    unfolding describe_column
    describe_columns zero height x y z w = w
    describe_columns (suc n) height x y z w =
        describe_columns n height (x + 1) y z (describe_column height x y z w)

    unfoldable pub get_floor_description : ℕ → ℕ → ℕ → ℕ → ℕ → ℕ → Writing T → Writing T
    unfolding describe_columns
    get_floor_description x y z width height offset w =
        describe_columns width height (x + offset) (y + offset) z w

    unfoldable pub describe_floors : ℕ → ℕ → ℕ → ℕ → ℕ → List ℕ → Writing T → Writing T
    unfolding get_floor_description
    describe_floors x y z width height [] w = w
    describe_floors x y z width height (nz ∷ zs) w =
        describe_floors x y z width height zs
          (get_floor_description x y nz width height ((z + 65536 - nz) % 65536) w)

    unfoldable pub get_map_description : ℕ → ℕ → ℕ → ℕ → ℕ → List (Part T)
    unfolding describe_floors floors_seen
    get_map_description x y z width height =
        let w =
          describe_floors x y z width height (floors_seen z)
            (record { skip = none; written = [] }) in
        w.written ++ flush w.skip

-- `checkCreatureAsKnown`: the known creatures afterwards, whether this one was known, and the one removed,
-- 0 for none. `sees` is `canSee` of the creature with an identifier.
abbrev pub known_creature_limit : ℕ
known_creature_limit = 1300

unfoldable pub is_known : ℕ → List ℕ → Bool
is_known id [] = false
is_known id (i ∷ is) = if i == id then true else is_known id is

unfoldable pub find_unseen : (ℕ → Bool) → List ℕ → Option ℕ
find_unseen sees [] = none
find_unseen sees (i ∷ is) = if sees i then find_unseen sees is else some i

-- The first creature of the set that is another one.
unfoldable pub find_other : ℕ → List ℕ → ℕ
find_other id [] = 0
find_other id (i ∷ is) = if i == id then find_other id is else i

unfoldable pub forget : ℕ → List ℕ → List ℕ
forget id [] = []
forget id (i ∷ is) = if i == id then is else i ∷ forget id is

pub record KnownCheck : Type 0 where
  pub known_creature_set : List ℕ
  pub known : Bool
  pub removed_known : ℕ

unfoldable pub check_creature_as_known : (ℕ → Bool) → ℕ → List ℕ → KnownCheck
unfolding is_known find_unseen find_other forget
check_creature_as_known sees id set =
    if is_known id set
    then record { known_creature_set = set; known = true; removed_known = 0 }
    else (let grown = id ∷ set in
        if ltb known_creature_limit (length grown)
        then (elim (find_unseen sees grown) [
          | some r ↦ record {
            known_creature_set = forget r grown;
            known = false;
            removed_known = r;
          }
          | none ↦
              (let r = find_other id grown in
                record { known_creature_set = forget r grown; known = false; removed_known = r })
        ])
        else record { known_creature_set = grown; known = false; removed_known = 0 })

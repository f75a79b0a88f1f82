-- ===== src/Position.antt =====
-- src/position.h: positions on the map, with `uint16_t` coordinates and a `uint8_t` floor.
pub mod Order
pub mod Range
use infernum_data_pack.Base.{
  ℕ, ◌+◌, ◌-◌, ◌%◌, Bool, true, false, ltb, leb, ◌==◌, not, ◌&&◌, ◌||◌, if◌then◌else◌,
}
use infernum_data_pack.Base.Int.{ℤ, sub_ℕ, abs}

pub record Position : Type 0 where
  pub x : ℕ  -- uint16_t
  pub y : ℕ  -- uint16_t
  pub z : ℕ  -- uint8_t

-- `operator<`
unfoldable pub is_less : Position → Position → Bool
is_less p q =
    if ltb p.z q.z
    then true
    else if ltb q.z p.z
    then false
    else if ltb p.y q.y
    then true
    else if ltb q.y p.y
    then false
    else if ltb p.x q.x
    then true
    else if ltb q.x p.x
    then false
    else false

-- `operator>`
unfoldable pub is_greater : Position → Position → Bool
unfolding is_less
is_greater p q = not (is_less p q)

-- `operator==` and `operator!=`
unfoldable pub is_equal : Position → Position → Bool
is_equal p q = q.x == p.x && (q.y == p.y && q.z == p.z)

unfoldable pub differs : Position → Position → Bool
differs p q = not (q.x == p.x) || (not (q.y == p.y) || not (q.z == p.z))

-- `operator+` and `operator-`: the constructor narrows each sum to its field.
unfoldable pub plus : Position → Position → Position
plus p q = record { x = (p.x + q.x) % 65536; y = (p.y + q.y) % 65536; z = (p.z + q.z) % 256 }

unfoldable pub minus : Position → Position → Position
minus p q = record {
  x = (p.x + 65536 - q.x) % 65536;
  y = (p.y + 65536 - q.y) % 65536;
  z = (p.z + 256 - q.z) % 256;
}

unfoldable pub get_offset_x : Position → Position → ℤ
get_offset_x p q = sub_ℕ p.x q.x

unfoldable pub get_offset_y : Position → Position → ℤ
get_offset_y p q = sub_ℕ p.y q.y

unfoldable pub get_offset_z : Position → Position → ℤ
get_offset_z p q = sub_ℕ p.z q.z

unfoldable pub get_distance_x : Position → Position → ℕ
unfolding get_offset_x
get_distance_x p q = abs (get_offset_x p q)

unfoldable pub get_distance_y : Position → Position → ℕ
unfolding get_offset_y
get_distance_y p q = abs (get_offset_y p q)

unfoldable pub get_distance_z : Position → Position → ℕ
unfolding get_offset_z
get_distance_z p q = abs (get_offset_z p q)

-- `areInRange<deltax, deltay>` and `areInRange<deltax, deltay, deltaz>`
unfoldable pub are_in_range : ℕ → ℕ → Position → Position → Bool
unfolding get_distance_x get_distance_y
are_in_range dx dy p q = leb (get_distance_x p q) dx && leb (get_distance_y p q) dy

unfoldable pub are_in_range_3d : ℕ → ℕ → ℕ → Position → Position → Bool
unfolding get_distance_x get_distance_y get_distance_z
are_in_range_3d dx dy dz p q =
    leb (get_distance_x p q) dx && (leb (get_distance_y p q) dy && leb (get_distance_z p q) dz)

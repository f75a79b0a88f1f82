-- ===== src/Items/Writing.antt =====
-- `serializeAttr` of src/item.cpp.
use infernum_data_pack.Base.{
  ℕ, ◌%◌, ◌^◌, Bool, true, false, not, List, [], ◌∷◌, Option, none, some, ◌==◌, ◌&&◌, ◌||◌,
  if◌then◌else◌,
}
use infernum_data_pack.Items.{ItemType, Item, int_attr, get_sub_type}
use infernum_data_pack.Loader.PropStream.{write_value, write_string}

abbrev pub is_set : Option ℕ → Bool
is_set none = false
is_set (some v) = true

abbrev pub is_nonempty : List ℕ → Bool
is_nonempty [] = false
is_nonempty (c ∷ cs) = true

-- A code and a number of `n` bytes, or a code and a text, under a condition.
unfoldable pub put_int : ℕ → ℕ → Bool → ℕ → List ℕ → List ℕ
unfolding write_value
put_int attr n b v buffer = if b then write_value n v (write_value 1 attr buffer) else buffer

unfoldable pub put_str : ℕ → List ℕ → List ℕ → List ℕ
unfolding write_value write_string
put_str attr s buffer = if is_nonempty s then write_string s (write_value 1 attr buffer) else buffer

abbrev pub saved_charges : Item → ℕ
saved_charges i = int_attr i.charges % 65536

abbrev pub saved_action_id : Item → ℕ
saved_action_id i = int_attr i.action_id % 65536

abbrev pub has_count : ItemType → Bool
has_count t = t.stackable || t.is_fluid

-- `getDecaying` is `DECAYING_TRUE` or `DECAYING_PENDING`.
abbrev pub is_decaying : Item → Bool
is_decaying i = int_attr i.decay_state % 256 == 1 || int_attr i.decay_state % 256 == 2

-- The texts and times of `serializeAttr`
unfoldable pub serialize_texts : Item → List ℕ → List ℕ
unfolding put_int put_str
serialize_texts i buffer =
    let b1 = put_str 6 i.text buffer in
    let b2 = put_int 18 4 (not (int_attr i.date == 0)) (int_attr i.date % 2 ^ 32) b1 in
    let b3 = put_str 19 i.writer b2 in
    let b4 = put_str 7 i.description b3 in
    let b5 = put_int 16 4 (is_set i.duration) (int_attr i.duration % 2 ^ 32) b4 in
    let b6 = put_int 17 1 (is_decaying i) (int_attr i.decay_state % 256) b5 in
    let b7 = put_str 24 i.name b6 in let b8 = put_str 25 i.article b7 in put_str 26 i.plural_name b8

-- The numbers of `serializeAttr` from the weight on
unfoldable pub serialize_stats : Item → List ℕ → List ℕ
unfolding put_int
serialize_stats i buffer =
    let b1 = put_int 27 4 (is_set i.weight) (int_attr i.weight % 2 ^ 32) buffer in
    let b2 = put_int 28 4 (is_set i.attack) (int_attr i.attack % 2 ^ 32) b1 in
    let b3 = put_int 29 4 (is_set i.defense) (int_attr i.defense % 2 ^ 32) b2 in
    let b4 = put_int 30 4 (is_set i.extra_defense) (int_attr i.extra_defense % 2 ^ 32) b3 in
    let b5 = put_int 31 4 (is_set i.armor) (int_attr i.armor % 2 ^ 32) b4 in
    let b6 = put_int 32 1 (is_set i.hit_chance) (int_attr i.hit_chance % 256) b5 in
    put_int 33 1 (is_set i.shoot_range) (int_attr i.shoot_range % 256) b6

unfoldable pub serialize_attr : ItemType → Item → List ℕ → List ℕ
unfolding get_sub_type put_int serialize_texts serialize_stats
serialize_attr t i buffer =
    let b1 = put_int 15 1 (has_count t) (get_sub_type t i % 256) buffer in
    let b2 = put_int 22 2 (not (saved_charges i == 0)) (saved_charges i) b1 in
    let b3 = put_int 4 2 (t.moveable && not (saved_action_id i == 0)) (saved_action_id i) b2 in
    serialize_stats i (serialize_texts i b3)

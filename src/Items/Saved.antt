-- ===== src/Items/Saved.antt =====
-- What of an item survives `serializeAttr` and `unserializeAttr` (src/item.cpp).
use infernum_data_pack.Base.{
  ℕ, ◌≡◌, refl, ◌%◌, ◌^◌, true, false, not, List, [], Option, some, length, max, ◌==◌, ◌&&◌, ltb,
  if◌then◌else◌,
}
use infernum_data_pack.Items.{
  ItemType, Item, str_attr, int_attr, sign_extend, set_sub_type, get_sub_type,
}
use infernum_data_pack.Items.Writing.{
  is_set, saved_charges, saved_action_id, has_count, is_decaying,
}

-- A text of more than 65535 bytes is written as an empty one, which does not change the item.
unfoldable pub kept : List ℕ → List ℕ
kept s = if ltb 65535 (length s) then [] else s

-- A number of `w` bits that was saved, where there was one.
abbrev pub low : ℕ → Option ℕ → ℕ
low w o = int_attr o % 2 ^ w

abbrev pub positive : ℕ → ℕ
positive v = if ltb v (2 ^ 31) then v else 0

-- The count and the charges both come back by `setSubType`.
unfoldable pub with_sub_type : ItemType → Item → Item → Item
unfolding set_sub_type get_sub_type
with_sub_type t i fresh =
    let counted = if has_count t then set_sub_type t (get_sub_type t i % 256) fresh else fresh in
    if not (saved_charges i == 0) then set_sub_type t (saved_charges i) counted else counted

-- Each text is as it was, and a decay that runs or waits is a waiting one.
unfoldable pub restored_texts : Item → Item → Item
unfolding kept sign_extend
restored_texts i c = record c {
  text = str_attr (kept i.text) c.text;
  date = if not (int_attr i.date == 0) then some (sign_extend 32 (low 32 i.date)) else c.date;
  writer = str_attr (kept i.writer) c.writer;
  description = str_attr (kept i.description) c.description;
  duration = if is_set i.duration then some (positive (low 32 i.duration)) else c.duration;
  decay_state = if is_decaying i then some 2 else c.decay_state;
  name = str_attr (kept i.name) c.name;
  article = str_attr (kept i.article) c.article;
  plural_name = str_attr (kept i.plural_name) c.plural_name;
}

-- Each number has the bits and the sign that it is stored with.
unfoldable pub restored_stats : Item → Item → Item
unfolding sign_extend
restored_stats i c = record c {
  weight = if is_set i.weight then some (low 32 i.weight) else c.weight;
  attack = if is_set i.attack then some (sign_extend 32 (low 32 i.attack)) else c.attack;
  defense = if is_set i.defense then some (sign_extend 32 (low 32 i.defense)) else c.defense;
  extra_defense =
      if is_set i.extra_defense
      then some (sign_extend 32 (low 32 i.extra_defense))
      else c.extra_defense;
  armor = if is_set i.armor then some (sign_extend 32 (low 32 i.armor)) else c.armor;
  hit_chance =
      if is_set i.hit_chance
      then some (sign_extend 8 (int_attr i.hit_chance % 256))
      else c.hit_chance;
  shoot_range = if is_set i.shoot_range then some (int_attr i.shoot_range % 256) else c.shoot_range;
}

-- The item that is read back into `fresh`; the unique id is not saved.
unfoldable pub restored : ItemType → Item → Item → Item
unfolding with_sub_type restored_texts restored_stats
restored t i fresh =
    let c = with_sub_type t i fresh in
    restored_stats i (
      restored_texts i (record c {
        action_id =
            if t.moveable && not (saved_action_id i == 0)
            then some (max 100 (saved_action_id i))
            else c.action_id;
      }))

-- `ATTR_CHARGES` is read by `setSubType`, which writes the lower byte of the charges over the count.
pub restored_charges_for_count :
    (t : ItemType) (i fresh : Item)
    → t.is_fluid ≡ false
    → t.stackable ≡ true
    → (saved_charges i == 0) ≡ false
    → (restored t i fresh).count ≡ saved_charges i % 256
unfolding restored with_sub_type set_sub_type restored_texts restored_stats
restored_charges_for_count t i fresh f s c = simp (f, s, c) refl

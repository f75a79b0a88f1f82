-- ===== src/Items/RoundTrip.antt =====
-- Items come back from the database and the map (src/item.cpp).
use infernum_data_pack.Base.{
  ℕ, ◌%◌, ◌^◌, ◌≡◌, refl, Bool, true, false, not, List, [], Option, some, max, ◌==◌, ◌&&◌,
  if◌then◌else◌, arith,
}
use infernum_data_pack.Items.{
  read_stats, read_attr, ItemType, Item, str_attr, int_attr, sign_extend, set_sub_type,
  get_sub_type, read_attr, unserialize_attr,
}
use infernum_data_pack.Items.Writing.{
  serialize_texts, serialize_stats, is_set, saved_charges, saved_action_id, has_count, is_decaying,
  serialize_attr,
}
use infernum_data_pack.Items.Saved.{
  restored_texts, restored_charges_for_count, restored_stats, positive, with_sub_type, restored,
}
use infernum_data_pack.Items.Segments.{
  Reads, int_Reads, str_Reads, nothing-Reads, unserialize_attr-Reads,
}
use infernum_data_pack.Network.Memory.{le_bytes}

decays : (i : Item) → is_decaying i ≡ true → (int_attr i.decay_state % 256 == 0) ≡ false
decays i e = ground (arith, e)

texts-Reads :
    (custom : List ℕ → Item → Option (Item × List ℕ)) (free : ℕ → Bool) (t : ItemType) (i : Item)
    (buffer : List ℕ) (f : Item → Item)
    → Reads custom free t buffer f
    → Reads custom free t (serialize_texts i buffer) (λ j. restored_texts i (f j))
unfolding serialize_texts restored_texts read_attr le_bytes
texts-Reads custom free t i buffer f h =
    let r1 =
      str_Reads custom free t 6 i.text _ _ (λ s j. record j { text = str_attr s j.text }) refl refl
        (λ bs j. refl) (λ j. refl) h in
    let r2 =
      int_Reads custom free t 18 4 (int_attr i.date % 2 ^ 32) (not (int_attr i.date == 0)) _ _
        (λ b j. record j {
          date = if b then some (sign_extend 32 (int_attr i.date % 2 ^ 32)) else j.date;
        })
        (λ v j. record j { date = some (sign_extend 32 v) }) refl refl (λ bs j. refl) (λ e j. refl)
        (λ j. refl) (omega arith) r1 in
    let r3 =
      str_Reads custom free t 19 i.writer _ _ (λ s j. record j { writer = str_attr s j.writer })
        refl refl (λ bs j. refl) (λ j. refl) r2 in
    let r4 =
      str_Reads custom free t 7 i.description _ _
        (λ s j. record j { description = str_attr s j.description }) refl refl (λ bs j. refl)
        (λ j. refl) r3 in
    let r5 =
      int_Reads custom free t 16 4 (int_attr i.duration % 2 ^ 32) (is_set i.duration) _ _
        (λ b j. record j {
          duration = if b then some (positive (int_attr i.duration % 2 ^ 32)) else j.duration;
        })
        (λ v j. record j { duration = some (positive v) }) refl refl (λ bs j. refl) (λ e j. refl)
        (λ j. refl) (omega arith) r4 in
    let r6 =
      int_Reads custom free t 17 1 (int_attr i.decay_state % 256) (is_decaying i) _ _
        (λ b j. record j { decay_state = if b then some 2 else j.decay_state })
        (λ v j. if v == 0 then j else record j { decay_state = some 2 }) refl refl (λ bs j. refl)
        (λ e j. simp (decays i e) refl) (λ j. refl) (omega arith) r5 in
    let r7 =
      str_Reads custom free t 24 i.name _ _ (λ s j. record j { name = str_attr s j.name }) refl refl
        (λ bs j. refl) (λ j. refl) r6 in
    let r8 =
      str_Reads custom free t 25 i.article _ _ (λ s j. record j { article = str_attr s j.article })
        refl refl (λ bs j. refl) (λ j. refl) r7 in
    let r9 =
      str_Reads custom free t 26 i.plural_name _ _
        (λ s j. record j { plural_name = str_attr s j.plural_name }) refl refl (λ bs j. refl)
        (λ j. refl) r8 in
    r9

stats-Reads :
    (custom : List ℕ → Item → Option (Item × List ℕ)) (free : ℕ → Bool) (t : ItemType) (i : Item)
    (buffer : List ℕ) (f : Item → Item)
    → Reads custom free t buffer f
    → Reads custom free t (serialize_stats i buffer) (λ j. restored_stats i (f j))
unfolding serialize_stats restored_stats read_attr read_stats le_bytes
stats-Reads custom free t i buffer f h =
    let r1 =
      int_Reads custom free t 27 4 (int_attr i.weight % 2 ^ 32) (is_set i.weight) _ _
        (λ b j. record j { weight = if b then some (int_attr i.weight % 2 ^ 32) else j.weight })
        (λ v j. record j { weight = some v }) refl refl (λ bs j. refl) (λ e j. refl) (λ j. refl)
        (omega arith) h in
    let r2 =
      int_Reads custom free t 28 4 (int_attr i.attack % 2 ^ 32) (is_set i.attack) _ _
        (λ b j. record j {
          attack = if b then some (sign_extend 32 (int_attr i.attack % 2 ^ 32)) else j.attack;
        })
        (λ v j. record j { attack = some (sign_extend 32 v) }) refl refl (λ bs j. refl)
        (λ e j. refl) (λ j. refl) (omega arith) r1 in
    let r3 =
      int_Reads custom free t 29 4 (int_attr i.defense % 2 ^ 32) (is_set i.defense) _ _
        (λ b j. record j {
          defense = if b then some (sign_extend 32 (int_attr i.defense % 2 ^ 32)) else j.defense;
        })
        (λ v j. record j { defense = some (sign_extend 32 v) }) refl refl (λ bs j. refl)
        (λ e j. refl) (λ j. refl) (omega arith) r2 in
    let r4 =
      int_Reads custom free t 30 4 (int_attr i.extra_defense % 2 ^ 32) (is_set i.extra_defense) _ _
        (λ b j. record j {
          extra_defense =
              if b
              then some (sign_extend 32 (int_attr i.extra_defense % 2 ^ 32))
              else j.extra_defense;
        })
        (λ v j. record j { extra_defense = some (sign_extend 32 v) }) refl refl (λ bs j. refl)
        (λ e j. refl) (λ j. refl) (omega arith) r3 in
    let r5 =
      int_Reads custom free t 31 4 (int_attr i.armor % 2 ^ 32) (is_set i.armor) _ _
        (λ b j. record j {
          armor = if b then some (sign_extend 32 (int_attr i.armor % 2 ^ 32)) else j.armor;
        })
        (λ v j. record j { armor = some (sign_extend 32 v) }) refl refl (λ bs j. refl) (λ e j. refl)
        (λ j. refl) (omega arith) r4 in
    let r6 =
      int_Reads custom free t 32 1 (int_attr i.hit_chance % 256) (is_set i.hit_chance) _ _
        (λ b j. record j {
          hit_chance =
              if b then some (sign_extend 8 (int_attr i.hit_chance % 256)) else j.hit_chance;
        })
        (λ v j. record j { hit_chance = some (sign_extend 8 v) }) refl refl (λ bs j. refl)
        (λ e j. refl) (λ j. refl) (omega arith) r5 in
    let r7 =
      int_Reads custom free t 33 1 (int_attr i.shoot_range % 256) (is_set i.shoot_range) _ _
        (λ b j. record j {
          shoot_range = if b then some (int_attr i.shoot_range % 256) else j.shoot_range;
        })
        (λ v j. record j { shoot_range = some v }) refl refl (λ bs j. refl) (λ e j. refl)
        (λ j. refl) (omega arith) r6 in
    r7

serialize_attr-Reads :
    (custom : List ℕ → Item → Option (Item × List ℕ)) (free : ℕ → Bool) (t : ItemType) (i : Item)
    → Reads custom free t (serialize_attr t i []) (λ fresh. restored t i fresh)
unfolding serialize_attr restored with_sub_type read_attr le_bytes
serialize_attr-Reads custom free t i =
    let start = nothing-Reads custom free t in
    let r1 =
      int_Reads custom free t 15 1 (get_sub_type t i % 256) (has_count t) _ _
        (λ b j. if b then set_sub_type t (get_sub_type t i % 256) j else j)
        (λ v j. set_sub_type t v j) refl refl (λ bs j. refl) (λ e j. refl) (λ j. refl) (omega arith)
        start in
    let r2 =
      int_Reads custom free t 22 2 (saved_charges i) (not (saved_charges i == 0)) _ _
        (λ b j. if b then set_sub_type t (saved_charges i) j else j) (λ v j. set_sub_type t v j)
        refl refl (λ bs j. refl) (λ e j. refl) (λ j. refl) (omega arith) r1 in
    let r3 =
      int_Reads custom free t 4 2 (saved_action_id i) (t.moveable && not (saved_action_id i == 0)) _
        _
        (λ b j. record j {
          action_id = if b then some (max 100 (saved_action_id i)) else j.action_id;
        })
        (λ v j. record j { action_id = some (max 100 v) }) refl refl (λ bs j. refl) (λ e j. refl)
        (λ j. refl) (omega arith) r2 in
    stats-Reads custom free t i _ _ (texts-Reads custom free t i _ _ r3)

pub unserialize_attr-serialize_attr :
    (custom : List ℕ → Item → Option (Item × List ℕ)) (free : ℕ → Bool) (t : ItemType)
    (i fresh : Item)
    → unserialize_attr custom free t (serialize_attr t i []) fresh ≡ some (restored t i fresh)
unserialize_attr-serialize_attr custom free t i fresh =
    unserialize_attr-Reads custom free t (serialize_attr t i []) (restored t i)
      (serialize_attr-Reads custom free t i) fresh

-- A stackable item with charges comes back with a wrong count: `unserializeAttr` of what `serializeAttr`
-- wrote succeeds, and the count of the item is the lower byte of the charges, whatever it was before.
-- The item has no custom attributes.
pub unserialize_attr_charges_for_count :
    (custom : List ℕ → Item → Option (Item × List ℕ)) (free : ℕ → Bool) (t : ItemType)
    (i fresh : Item)
    → t.is_fluid ≡ false
    → t.stackable ≡ true
    → (saved_charges i == 0) ≡ false
    → (j : Item) × (unserialize_attr custom free t (serialize_attr t i []) fresh ≡ some j)
      × (j.count ≡ saved_charges i % 256)
unserialize_attr_charges_for_count custom free t i fresh fluid stacks charged = (
  restored t i fresh,
  unserialize_attr-serialize_attr custom free t i fresh,
  restored_charges_for_count t i fresh fluid stacks charged,
)

-- ===== src/Items.antt =====
-- The attributes of an item and their form in the database and the map (src/item.cpp, src/item.h). A number
-- is kept in 64 bits, as its two's complement. Custom attributes are left out: an item here has none, and
-- how they are read is the parameter `custom`; `free` is the answer of `Game::addUniqueItem`.
pub mod Writing
pub mod Saved
pub mod Segments
pub mod RoundTrip
use infernum_data_pack.Base.{
  ℕ, zero, suc, ◌+◌, ◌-◌, ◌%◌, ◌^◌, Bool, true, false, not, List, [], ◌∷◌, ◌++◌, Option, none, some,
  length, max, ◌==◌, ◌&&◌, ◌||◌, ltb, if◌then◌else◌,
}
use infernum_data_pack.Loader.PropStream.{read_value, read_string, skip}

-- What the tables say of the item's type.
pub record ItemType : Type 0 where
  pub stackable : Bool
  -- `isFluidContainer() || isSplash()`
  pub is_fluid : Bool
  pub charged : Bool
  pub moveable : Bool

-- The count and the attributes, one field for each `itemAttrTypes` that is read; an absent text is empty.
pub record Item : Type 0 where
  pub count : ℕ
  pub fluid_type : Option ℕ
  pub charges : Option ℕ
  pub action_id : Option ℕ
  pub unique_id : Option ℕ
  pub text : List ℕ
  pub date : Option ℕ
  pub writer : List ℕ
  pub description : List ℕ
  pub duration : Option ℕ
  pub decay_state : Option ℕ
  pub name : List ℕ
  pub article : List ℕ
  pub plural_name : List ℕ
  pub weight : Option ℕ
  pub attack : Option ℕ
  pub defense : Option ℕ
  pub extra_defense : Option ℕ
  pub armor : Option ℕ
  pub hit_chance : Option ℕ
  pub shoot_range : Option ℕ

-- `setStrAttr`
abbrev pub str_attr : List ℕ → List ℕ → List ℕ
str_attr [] old = old
str_attr (c ∷ cs) old = c ∷ cs

-- `getIntAttr`
abbrev pub int_attr : Option ℕ → ℕ
int_attr none = 0
int_attr (some v) = v

-- A signed number of `w` bits in 64 bits.
unfoldable pub sign_extend : ℕ → ℕ → ℕ
sign_extend w v = if ltb v (2 ^ (w - 1)) then v else v + 2 ^ 64 - 2 ^ w

unfoldable pub set_sub_type : ItemType → ℕ → Item → Item
set_sub_type t n i =
    if t.is_fluid
    then record i { fluid_type = some n }
    else if t.stackable
    then record i { count = n % 256 }
    else if t.charged
    then record i { charges = some n }
    else record i { count = n % 256 }

unfoldable pub get_sub_type : ItemType → Item → ℕ
get_sub_type t i =
    if t.is_fluid
    then int_attr i.fluid_type % 65536
    else if t.stackable
    then i.count
    else if t.charged
    then int_attr i.charges % 65536
    else i.count

-- A value or a text was read, or the stream was too short, which is `ATTR_READ_ERROR`.
abbrev pub got {ℓ} : {A : Type ℓ} → Option (A × List ℕ) → (A → Item) → Option (Item × List ℕ)
got none f = none
got (some (v, rest)) f = some (f v, rest)

abbrev pub skipped : Option (List ℕ) → Item → Option (Item × List ℕ)
skipped none i = none
skipped (some rest) i = some (i, rest)

-- `Item::setUniqueId`
abbrev pub unique_attr : (ℕ → Bool) → Option ℕ → ℕ → Option ℕ
unique_attr free none n = if free n then some n else none
unique_attr free (some old) n = some old

-- The cases of `readAttr` from `ATTR_WEIGHT` on
unfoldable pub read_stats :
    (List ℕ → Item → Option (Item × List ℕ)) → ℕ → List ℕ → Item → Option (Item × List ℕ)
unfolding sign_extend read_value skip
read_stats custom attr bs i =
    if attr == 27
    then got (read_value 4 bs) (λ v. record i { weight = some v })
    else if attr == 28
    then got (read_value 4 bs) (λ v. record i { attack = some (sign_extend 32 v) })
    else if attr == 29
    then got (read_value 4 bs) (λ v. record i { defense = some (sign_extend 32 v) })
    else if attr == 30
    then got (read_value 4 bs) (λ v. record i { extra_defense = some (sign_extend 32 v) })
    else if attr == 31
    then got (read_value 4 bs) (λ v. record i { armor = some (sign_extend 32 v) })
    else if attr == 32
    then got (read_value 1 bs) (λ v. record i { hit_chance = some (sign_extend 8 v) })
    else if attr == 33
    then got (read_value 1 bs) (λ v. record i { shoot_range = some v })
    else if attr == 10
    then skipped (skip 2 bs) i
    else if attr == 14
    then skipped (skip 1 bs) i
    else if attr == 20
    then skipped (skip 4 bs) i
    else if attr == 21
    then skipped (skip 4 bs) i
    else if attr == 8
    then skipped (skip 5 bs) i
    else if attr == 34
    then custom bs i
    else none

unfoldable pub read_attr :
    (List ℕ → Item → Option (Item × List ℕ))
    → (ℕ → Bool)
    → ItemType
    → ℕ
    → List ℕ
    → Item
    → Option (Item × List ℕ)
unfolding read_stats sign_extend set_sub_type read_value read_string
read_attr custom free t attr bs i =
    if attr == 15 || attr == 12
    then got (read_value 1 bs) (λ v. set_sub_type t v i)
    else if attr == 4
    then got (read_value 2 bs) (λ v. record i { action_id = some (max 100 v) })
    else if attr == 5
    then got (read_value 2 bs) (λ v. record i { unique_id = unique_attr free i.unique_id v })
    else if attr == 6
    then got (read_string bs) (λ s. record i { text = str_attr s i.text })
    else if attr == 18
    then got (read_value 4 bs) (λ v. record i { date = some (sign_extend 32 v) })
    else if attr == 19
    then got (read_string bs) (λ s. record i { writer = str_attr s i.writer })
    else if attr == 7
    then got (read_string bs) (λ s. record i { description = str_attr s i.description })
    else if attr == 22
    then got (read_value 2 bs) (λ v. set_sub_type t v i)
    else if attr == 16
    then got (read_value 4 bs) (λ v. record i { duration = some (if ltb v (2 ^ 31) then v else 0) })
    else if attr == 17
    then got (read_value 1 bs) (λ v. if v == 0 then i else record i { decay_state = some 2 })
    else if attr == 24
    then got (read_string bs) (λ s. record i { name = str_attr s i.name })
    else if attr == 25
    then got (read_string bs) (λ s. record i { article = str_attr s i.article })
    else if attr == 26
    then got (read_string bs) (λ s. record i { plural_name = str_attr s i.plural_name })
    else read_stats custom attr bs i

-- The loop of `unserializeAttr` on fuel; each round takes a byte at least. `none` stands for `false`.
module _ (custom : List ℕ → Item → Option (Item × List ℕ)) (free : ℕ → Bool) (t : ItemType) where
  unfoldable pub attr_loop : ℕ → List ℕ → Item → Option Item
  unfolding read_attr
  attr_loop zero bs i = none
  attr_loop (suc n) [] i = some i
  attr_loop (suc n) (attr ∷ bs) i =
      if attr == 0 then some i else (elim (read_attr custom free t attr bs i) [
        | none ↦ none
        | some (j, rest) ↦ attr_loop n rest j
      ])

  unfoldable pub unserialize_attr : List ℕ → Item → Option Item
  unfolding attr_loop
  unserialize_attr bs i = attr_loop (suc (length bs)) bs i

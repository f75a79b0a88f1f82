-- ===== src/Abilities.antt =====
-- The abilities of an item and their form in the database (src/item.cpp): `readAbility`,
-- `unserializeAbility` and `serializeAbility`. A value is kept in 64 bits, as its two's complement.
pub mod RoundTrip
use infernum_data_pack.Base.{
  ℕ, zero, suc, ◌+◌, Bool, true, false, List, [], ◌∷◌, Option, none, some, length, ◌==◌, ◌&&◌, leb,
  if◌then◌else◌,
}
use infernum_data_pack.Loader.PropStream.{read_value, write_value}

-- The value of each ability that the item has, by its number from `ABILITY_START` to `ABILITY_END`.
abbrev pub Abilities : Type 0
Abilities = ℕ → Option ℕ

abbrev pub ability_start : ℕ
ability_start = 1

abbrev pub ability_end : ℕ
ability_end = 53

abbrev pub set_ability : ℕ → ℕ → Abilities → Abilities
set_ability i v a j = if i == j then some v else a j

abbrev pub set_read : ℕ → Abilities → Option (ℕ × List ℕ) → Option (Abilities × List ℕ)
set_read i a none = none
set_read i a (some (v, rest)) = some (set_ability i v a, rest)

unfoldable pub read_ability : ℕ → List ℕ → Abilities → Option (Abilities × List ℕ)
unfolding read_value
read_ability i bs a =
    if leb ability_start i && leb i ability_end then set_read i a (read_value 8 bs) else none

-- The loop of `unserializeAbility` on fuel; each round takes a byte at least. `none` stands for `false`.
unfoldable pub ability_loop : ℕ → List ℕ → Abilities → Option Abilities
unfolding read_ability
ability_loop zero bs a = none
ability_loop (suc n) [] a = some a
ability_loop (suc n) (i ∷ bs) a =
    if i == 0
    then some a
    else (elim (read_ability i bs a) [ none ↦ none | some (b, rest) ↦ ability_loop n rest b ])

unfoldable pub unserialize_ability : List ℕ → Abilities → Option Abilities
unfolding ability_loop
unserialize_ability bs a = ability_loop (suc (length bs)) bs a

abbrev pub put_ability : ℕ → Option ℕ → List ℕ → List ℕ
put_ability i none buffer = buffer
put_ability i (some v) buffer = write_value 8 v (write_value 1 i buffer)

-- The loop of `serializeAbility`, with `n` abilities to go from `i`.
unfoldable pub serialize_from : ℕ → ℕ → Abilities → List ℕ → List ℕ
unfolding write_value
serialize_from zero i a buffer = buffer
serialize_from (suc n) i a buffer = serialize_from n (i + 1) a (put_ability i (a i) buffer)

unfoldable pub serialize_ability : Abilities → List ℕ → List ℕ
unfolding serialize_from
serialize_ability a buffer = serialize_from ability_end ability_start a buffer

-- ===== src/Experience.antt =====
-- A player's experience and level: `addExperience`, `removeExperience` and `getPercentLevel` of
-- src/player.cpp and `getExpForLevel` of src/player.h. What is sent to the clients is left out. The
-- 32 bits of health and mana are taken as enough; the level and, on the way up, the capacity wrap around.
pub mod Levels
use infernum_data_pack.Base.{
  ℕ, zero, suc, ◌+◌, ◌-◌, ◌*◌, ◌/◌, ◌%◌, ◌^◌, Bool, true, false, not, Option, none, some, ◌==◌,
  ◌&&◌, ◌||◌, ltb, leb, max, if◌then◌else◌,
}

-- `getExpForLevel` of a level that is not negative, on 64 bits.
unfoldable pub get_exp_for_level : ℕ → ℕ
get_exp_for_level lv =
    let l = (lv + 2 ^ 64 - 1) % 2 ^ 64 in
    let cubes = 50 * l * l * l % 2 ^ 64 in
    let squares = 150 * l * l % 2 ^ 64 in (cubes + 2 ^ 64 - squares + 400 * l) % 2 ^ 64 / 3

unfoldable pub get_percent_level : ℕ → ℕ → ℕ
get_percent_level count next_level_count =
    if next_level_count == 0
    then 0
    else (let result = count * 100 % 2 ^ 64 / next_level_count % 256 in
        if ltb 100 result then 0 else result)

-- What a vocation gives on each level.
pub record Vocation : Type 0 where
  pub hp_gain : ℕ
  pub mana_gain : ℕ
  pub cap_gain : ℕ

pub record Player : Type 0 where
  pub level : ℕ
  pub experience : ℕ
  pub level_percent : ℕ
  pub health : ℕ
  pub health_max : ℕ
  pub mana : ℕ
  pub mana_max : ℕ
  pub capacity : ℕ

-- The player with `currLevelExp` and `nextLevelExp`.
pub record Climb : Type 0 where
  pub player : Player
  pub curr_level_exp : ℕ
  pub next_level_exp : ℕ

abbrev pub next_level : Player → ℕ
next_level p = (p.level + 1) % 2 ^ 32

-- One level up.
unfoldable pub advance : Vocation → Player → Player
advance v p = record p {
  level = next_level p;
  health_max = p.health_max + v.hp_gain;
  health = p.health + v.hp_gain;
  mana_max = p.mana_max + v.mana_gain;
  mana = p.mana + v.mana_gain;
  capacity = (p.capacity + v.cap_gain) % 2 ^ 32;
}

-- The loop of `addExperience`, on fuel.
unfoldable pub climb : ℕ → Vocation → Climb → Option Climb
unfolding advance
climb zero v c = none
climb (suc n) v c =
    let p = advance v c.player in
    let next = get_exp_for_level (next_level p) in
    let up : Climb = record {
      player = p;
      curr_level_exp = c.next_level_exp;
      next_level_exp = next;
    } in
    let rest = climb n v up in
    if ltb c.player.experience c.next_level_exp
    then some c
    else if leb next c.next_level_exp
    then some up
    else rest

-- `levelPercent` at the end of both functions.
abbrev pub percent : ℕ → ℕ → ℕ → ℕ
percent experience curr next =
    if ltb curr next
    then get_percent_level ((experience + 2 ^ 64 - curr) % 2 ^ 64) ((next + 2 ^ 64 - curr) % 2 ^ 64)
    else 0

unfoldable pub finish : ℕ → Climb → Player
finish prev c =
    let p = c.player in
    let q = if prev == p.level then p else record p { health = p.health_max; mana = p.mana_max } in
    record q { level_percent = percent p.experience c.curr_level_exp c.next_level_exp }

abbrev pub finished : ℕ → Option Climb → Option Player
finished prev none = none
finished prev (some c) = some (finish prev c)

-- `addExperience`: `bonus` is what a slain monster's level adds, `gains` what the script event makes of the
-- experience.
unfoldable pub add_experience : Vocation → (ℕ → ℕ) → (ℕ → ℕ) → ℕ → Player → Option Player
unfolding climb finish
add_experience v bonus gains exp p =
    let curr = get_exp_for_level p.level in
    let next = get_exp_for_level (next_level p) in
    let gained = gains ((exp + bonus exp) % 2 ^ 64) % 2 ^ 64 in
    let total = (p.experience + gained) % 2 ^ 64 in
    if leb next curr
    then some (record p { level_percent = 0 })
    else if gained == 0
    then some p
    else finished p.level (
        climb (suc (suc total)) v (record {
          player = record p { experience = total };
          curr_level_exp = curr;
          next_level_exp = next;
        }))

-- The loop of `removeExperience`, down from a level.
unfoldable pub descend : ℕ → Vocation → Player → Player
descend zero v p = p
descend (suc n) v p =
    let down : Player = record p {
      level = p.level - 1;
      health_max = p.health_max - v.hp_gain;
      mana_max = p.mana_max - v.mana_gain;
      capacity = p.capacity - v.cap_gain;
    } in
    let rest = descend n v down in
    if ltb 1 p.level && ltb p.experience (get_exp_for_level p.level) then rest else p

-- `std::max<int64_t>(0, experience - exp)`, where the difference wraps around on 64 bits.
abbrev pub less : ℕ → ℕ → ℕ
less experience exp =
    let d = (experience + 2 ^ 64 - exp) % 2 ^ 64 in if ltb d (2 ^ 63) then d else 0

-- `removeExperience`: `loses` is what the script event makes of the loss.
unfoldable pub remove_experience : Vocation → (ℕ → ℕ) → ℕ → Player → Player
unfolding descend finish
remove_experience v loses exp p =
    let lost = loses exp % 2 ^ 64 in
    if p.experience == 0 || exp == 0
    then p
    else if lost == 0
    then p
    else (let q = descend p.level v (record p { experience = less p.experience lost }) in
        finish p.level (record {
          player = q;
          curr_level_exp = get_exp_for_level q.level;
          next_level_exp = get_exp_for_level (next_level q);
        }))

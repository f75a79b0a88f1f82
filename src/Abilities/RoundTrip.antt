-- ===== src/Abilities/RoundTrip.antt =====
-- Abilities come back from the database (src/item.cpp).
use infernum_data_pack.Base.{
  ℕ, zero, suc, ◌+◌, ◌^◌, ◌≤◌, ◌<◌, ◌≡◌, refl, sym, ap, ◌∙◌, fun_ext, true, false, List, [], ◌∷◌,
  ◌++◌, append_assoc, append-nil, Option, none, some, length, length-append, ◌==◌, ◌&&◌, leb, ltb,
  if◌then◌else◌, arith, Bool-cases, inl, inr, ==→eq,
}
use infernum_data_pack.Abilities.{
  Abilities, ability_start, ability_end, set_ability, set_read, read_ability, ability_loop,
  unserialize_ability, put_ability, serialize_from, serialize_ability,
}
use infernum_data_pack.Loader.PropStream.{write_value, read_value-write_value}
use infernum_data_pack.Network.Memory.{le_bytes}

-- The bytes of one ability, and of `n` abilities from `i` on.
ability_bytes : ℕ → Option ℕ → List ℕ
ability_bytes i none = []
ability_bytes i (some v) = i ∷ le_bytes 8 v

all_bytes : ℕ → ℕ → Abilities → List ℕ
all_bytes zero i a = []
all_bytes (suc n) i a = ability_bytes i (a i) ++ all_bytes n (i + 1) a

one_byte : (i : ℕ) → i < 256 → le_bytes 1 i ≡ i ∷ []
unfolding le_bytes
one_byte i h = ap (λ k. k ∷ []) (omega (arith, h))

put_ability_append :
    (i : ℕ) (o : Option ℕ) (buffer : List ℕ)
    → i < 256
    → put_ability i o buffer ≡ buffer ++ ability_bytes i o
unfolding write_value ability_bytes
put_ability_append i none buffer h = sym (append-nil buffer)
put_ability_append i (some v) buffer h =
    ap (λ l. (buffer ++ l) ++ le_bytes 8 v) (one_byte i h)
    ∙ append_assoc buffer (i ∷ []) (le_bytes 8 v)

serialize_from-all_bytes :
    (n i : ℕ) (a : Abilities) (buffer : List ℕ)
    → i + n ≤ 54
    → serialize_from n i a buffer ≡ buffer ++ all_bytes n i a
unfolding serialize_from all_bytes
serialize_from-all_bytes zero i a buffer h = sym (append-nil buffer)
serialize_from-all_bytes (suc n) i a buffer h =
    serialize_from-all_bytes n (i + 1) a (put_ability i (a i) buffer) (omega (arith, h))
    ∙ (ap (λ l. l ++ all_bytes n (i + 1) a) (put_ability_append i (a i) buffer (omega (arith, h)))
        ∙ append_assoc buffer (ability_bytes i (a i)) (all_bytes n (i + 1) a))

-- The ability that is read, or the one that is there.
abbrev pub or_else : Option ℕ → Option ℕ → Option ℕ
or_else none o = o
or_else (some v) o = some v

abbrev over : ℕ → Option ℕ → Abilities → Abilities
over i none g = g
over i (some v) g = set_ability i v g

overlay : ℕ → ℕ → Abilities → Abilities → Abilities
overlay zero i a g = g
overlay (suc n) i a g = overlay n (i + 1) a (over i (a i) g)

read_ability_back :
    (i v : ℕ) (rest : List ℕ) (g : Abilities)
    → 1 ≤ i
    → i ≤ 53
    → v < 2 ^ 64
    → read_ability i (le_bytes 8 v ++ rest) g ≡ some (set_ability i v g, rest)
unfolding read_ability write_value
read_ability_back i v rest g low high fits =
    let in_range : (leb ability_start i && leb i ability_end) ≡ true = ground (arith, low, high) in
    simp in_range (ap (set_read i g) (read_value-write_value 8 v rest (omega (arith, fits))))

read_one :
    (m i : ℕ) (o : Option ℕ) (rest : List ℕ) (g r : Abilities)
    → 1 ≤ i
    → i ≤ 53
    → ((v : ℕ) → o ≡ some v → v < 2 ^ 64)
    → ((k : ℕ) → length rest ≤ k → ability_loop (suc k) rest (over i o g) ≡ some r)
    → length (ability_bytes i o ++ rest) ≤ m
    → ability_loop (suc m) (ability_bytes i o ++ rest) g ≡ some r
unfolding ability_bytes ability_loop
read_one m i none rest g r low high fits next l = next m l
read_one zero i (some v) rest g r low high fits next l = absurd (omega (arith, l))
read_one (suc m) i (some v) rest g r low high fits next l =
    let not_zero : (i == 0) ≡ false = ground (arith, low) in
    simp (not_zero, read_ability_back i v rest g low high (fits v refl))
      (next m (omega (arith, l, length-append (le_bytes 8 v) rest)))

all_bytes-overlay :
    (n i : ℕ) (a g : Abilities)
    → ((j v : ℕ) → a j ≡ some v → v < 2 ^ 64)
    → 1 ≤ i
    → i + n ≤ 54
    → (m : ℕ) → length (all_bytes n i a) ≤ m
    → ability_loop (suc m) (all_bytes n i a) g ≡ some (overlay n i a g)
unfolding all_bytes overlay ability_loop
all_bytes-overlay zero i a g fits low high m l = refl
all_bytes-overlay (suc n) i a g fits low high m l =
    read_one m i (a i) (all_bytes n (i + 1) a) g (overlay n (i + 1) a (over i (a i) g)) low
      (omega (arith, high)) (fits i)
      (all_bytes-overlay n (i + 1) a (over i (a i) g) fits (omega arith) (omega (arith, high))) l

over_lem :
    (i j : ℕ) (a g : Abilities) → over i (a i) g j ≡ (if i == j then or_else (a j) (g j) else g j)
over_lem i j a g = elim (Bool-cases (i == j)) [
  | inl e ↦ simp e (ap (λ k. over i (a k) g j) (==→eq i j e) ∙ here (a j) e)
  | inr e ↦ simp e (there (a i) e)
]
  where
    here : (o : Option ℕ) → (i == j) ≡ true → over i o g j ≡ or_else o (g j)
    here none e = refl
    here (some v) e = simp e refl

    there : (o : Option ℕ) → (i == j) ≡ false → over i o g j ≡ g j
    there none e = refl
    there (some v) e = simp e refl

widen :
    (i n j : ℕ) (o p : Option ℕ)
    → (if leb (i + 1) j && ltb j (i + 1 + n)
        then or_else o (if i == j then or_else o p else p)
        else if i == j
        then or_else o p
        else p)
      ≡ (if leb i j && ltb j (i + suc n) then or_else o p else p)
widen i n j o p = elim (Bool-cases (i == j)) [
  | inl e ↦
      (let f : (leb (i + 1) j && ltb j (i + 1 + n)) ≡ false = ground (arith, e) in
        let k : (leb i j && ltb j (i + suc n)) ≡ true = ground (arith, e) in simp (e, f, k) refl)
  | inr e ↦
      (let f : (leb (i + 1) j && ltb j (i + 1 + n)) ≡ (leb i j && ltb j (i + suc n)) =
          ground (arith, e) in
        simp (e, f) refl)
]

overlay_lem :
    (n i : ℕ) (a g : Abilities) (j : ℕ)
    → overlay n i a g j ≡ (if leb i j && ltb j (i + n) then or_else (a j) (g j) else g j)
unfolding overlay
overlay_lem zero i a g j = elim (Bool-cases (leb i j && ltb j (i + 0))) [
  | inl e ↦ absurd (ground (arith, e))
  | inr e ↦ simp e refl
]
overlay_lem (suc n) i a g j =
    overlay_lem n (i + 1) a (over i (a i) g) j
    ∙ (ap (λ x. if leb (i + 1) j && ltb j (i + 1 + n) then or_else (a j) x else x)
          (over_lem i j a g)
        ∙ widen i n j (a j) (g j))

serialize_ability_lem :
    (a : Abilities) → serialize_ability a [] ≡ all_bytes ability_end ability_start a
unfolding serialize_ability
serialize_ability_lem a = serialize_from-all_bytes ability_end ability_start a [] (omega arith)

same_range :
    (j : ℕ) (o p : Option ℕ)
    → (if leb ability_start j && ltb j (ability_start + ability_end) then o else p)
      ≡ (if leb ability_start j && leb j ability_end then o else p)
same_range j o p = ap (λ b. if b then o else p) (ground arith)

-- An item's abilities are read back over those that are there: each of the abilities from the first to the
-- last has its value again, and no other changes. Every value fits 64 bits.
pub unserialize_ability-serialize_ability :
    (a g : Abilities)
    → ((j v : ℕ) → a j ≡ some v → v < 2 ^ 64)
    → unserialize_ability (serialize_ability a []) g
      ≡ some (λ j. if leb ability_start j && leb j ability_end then or_else (a j) (g j) else g j)
unfolding unserialize_ability
unserialize_ability-serialize_ability a g fits =
    let bytes = all_bytes ability_end ability_start a in
    ap (λ bs. ability_loop (suc (length bs)) bs g) (serialize_ability_lem a)
    ∙ (all_bytes-overlay ability_end ability_start a g fits (omega arith) (omega arith)
          (length bytes) (omega arith)
        ∙ ap some (
            fun_ext (λ j.
              overlay_lem ability_end ability_start a g j
              ∙ same_range j (or_else (a j) (g j)) (g j))))

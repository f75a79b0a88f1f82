-- ===== src/View/Window.antt =====
-- The window that a map description covers and `canSee` (src/protocolgame.cpp).
use infernum_data_pack.Base.{
  ℕ, zero, suc, ◌+◌, ◌-◌, ◌%◌, ◌≤◌, ◌<◌, ◌≡◌, refl, ap, ap₂, ◌∙◌, Bool, true, false, List, [], ◌∷◌,
  length, ◌==◌, ◌&&◌, ◌||◌, ltb, leb, min, if◌then◌else◌, arith, Bool-cases, inl, inr, ==→eq,
  ==_self,
}
use infernum_data_pack.Position.{Position}
use infernum_data_pack.View.{can_see, is_known, floors_up, floors_seen, get_map_description}
use infernum_data_pack.View.Skips.{
  floor_places, window_places, read_places, read_places-get_map_description,
}
use infernum_data_pack.View.Columns.{any_tile, any_tile_append, only, in_floor, floor_only}

-- Some tile stands in the window that is sent to a player at `my`: 18 by 14 places from (x - 8, y - 6).
sent : Position → ℕ → ℕ → ℕ → List ℕ → Bool
sent my u v w zs = any_tile (window_places (only u v w) (my.x - 8) (my.y - 6) my.z 18 14 zs)

-- A floor of the window, moved with its height; the player is away from the edges.
pub record Inside (my : Position) : Type 0 where
  pub west : 24 ≤ my.x
  pub east : my.x + 24 ≤ 65536
  pub north : 24 ≤ my.y
  pub south : my.y + 24 ≤ 65536
  pub depth : my.z < 16

-- The place is in the window of its own floor.
in_window : Position → ℕ → ℕ → ℕ → Bool
in_window my u v w = in_floor u v w 18 14 (my.x + my.z - 8 - w) (my.y + my.z - 6 - w) w

floor_sent :
    (my : Position) (u v w z : ℕ)
    → Inside my
    → my.z ≤ z + 7
    → z ≤ my.z + 7
    → any_tile (
        floor_places
          (only u v w)
          18
          14
          (my.x - 8 + (my.z + 65536 - z) % 65536)
          (my.y - 6 + (my.z + 65536 - z) % 65536)
          z)
      ≡ in_floor u v w 18 14 (my.x + my.z - 8 - z) (my.y + my.z - 6 - z) z
floor_sent my u v w z h k l =
    let west = h.west in
    let east = h.east in
    let north = h.north in
    let south = h.south in
    let depth = h.depth in
    let off = (my.z + 65536 - z) % 65536 in
    let x0 = my.x + my.z - 8 - z in
    let y0 = my.y + my.z - 6 - z in
    ap₂ (λ a b. any_tile (floor_places (only u v w) 18 14 a b z))
      (split_off (my.x - 8 + off) x0 (omega arith)) (split_off (my.y - 6 + off) y0 (omega arith))
    ∙ floor_only u v w (my.x - 8 + off - x0) (my.y - 6 + off - y0) 18 14 x0 y0 z (omega arith)
        (omega arith) (omega arith) (omega arith)
  where
    split_off : (a b : ℕ) → b ≤ a → a ≡ a - b + b
    split_off a b h = omega arith

-- All floors of a list are at most seven away.
close : ℕ → List ℕ → Bool
close z [] = true
close z (nz ∷ zs) = leb z (nz + 7) && leb nz (z + 7) && close z zs

own_floor :
    (my : Position) (u v w : ℕ) (b : Bool)
    → (in_floor u v w 18 14 (my.x + my.z - 8 - w) (my.y + my.z - 6 - w) w
        || (b && in_window my u v w))
      ≡ in_window my u v w
unfolding in_window
own_floor my u v w b = absorb (in_floor u v w 18 14 (my.x + my.z - 8 - w) (my.y + my.z - 6 - w) w) b
  where
    absorb : (a b : Bool) → (a || (b && a)) ≡ a
    absorb a b = ground arith

elsewhere : (u v w m n x y z : ℕ) → (z == w) ≡ false → in_floor u v w m n x y z ≡ false
unfolding in_floor
elsewhere u v w m n x y z e = ground (arith, e)

one_floor :
    (my : Position) (u v w z : ℕ) (zs : List ℕ)
    → (in_floor u v w 18 14 (my.x + my.z - 8 - z) (my.y + my.z - 6 - z) z
        || (is_known w zs && in_window my u v w))
      ≡ (is_known w (z ∷ zs) && in_window my u v w)
unfolding is_known
one_floor my u v w z zs = elim (Bool-cases (z == w)) [
  | inl e ↦ simp e (
      ap
        (λ k.
          in_floor u v w 18 14 (my.x + my.z - 8 - k) (my.y + my.z - 6 - k) k
          || (is_known w zs && in_window my u v w))
        (==→eq z w e)
      ∙ own_floor my u v w (is_known w zs))
  | inr e ↦
      simp e (ap (λ b. b || (is_known w zs && in_window my u v w)) (elsewhere u v w 18 14 _ _ z e))
]

close_parts :
    (z nz : ℕ) (b : Bool)
    → (leb z (nz + 7) && leb nz (z + 7) && b) ≡ true
    → (z ≤ nz + 7) × (nz ≤ z + 7) × (b ≡ true)
close_parts z nz b h = (ground (arith, h), ground (arith, h), ground (arith, h))

sent_floors :
    (my : Position) (u v w : ℕ) (zs : List ℕ)
    → Inside my
    → close my.z zs ≡ true
    → sent my u v w zs ≡ (is_known w zs && in_window my u v w)
unfolding sent any_tile window_places close
sent_floors my u v w [] h k = unfold is_known in refl
sent_floors my u v w (z ∷ zs) h k =
    let ks = close_parts my.z z (close my.z zs) k in
    any_tile_append
      (floor_places (only u v w) 18 14 (my.x - 8 + (my.z + 65536 - z) % 65536)
        (my.y - 6 + (my.z + 65536 - z) % 65536) z)
      (window_places (only u v w) (my.x - 8) (my.y - 6) my.z 18 14 zs)
    ∙ (ap₂ ◌||◌ (floor_sent my u v w z h ks.0 ks.1) (sent_floors my u v w zs h ks.2)
        ∙ one_floor my u v w z zs)

in_floors_up : (w n s : ℕ) → is_known w (floors_up n s) ≡ (leb s w && ltb w (s + n))
unfolding is_known floors_up
in_floors_up w zero s = ground arith
in_floors_up w (suc n) s =
    ap (λ b. if s == w then true else b) (in_floors_up w n (s + 1)) ∙ ground arith

close-floors_up : (z n s : ℕ) → z ≤ s + 7 → s + n ≤ z + 7 → close z (floors_up n s) ≡ true
unfolding close floors_up
close-floors_up z zero s h k = refl
close-floors_up z (suc n) s h k =
    rw (close-floors_up z n (s + 1) (omega arith) (omega arith)) (ground arith)

close-floors_seen : (z : ℕ) → z < 16 → close z (floors_seen z) ≡ true
unfolding floors_seen close
close-floors_seen z h = elim (Bool-cases (ltb 7 z)) [
  | inl e ↦
      simp e
        (close-floors_up z (min 15 (z + 2) + 1 - (z - 2)) (z - 2) (omega arith) (ground (arith, e)))
  | inr e ↦ simp e (ground (arith, e))
]

can_see_box : Position → ℕ → ℕ → ℕ → Bool
can_see_box my u v w =
    leb (my.x + my.z) (u + 8 + w)
    && leb (u + w) (my.x + 9 + my.z)
    && leb (my.y + my.z) (v + 6 + w)
    && leb (v + w) (my.y + 7 + my.z)

in_window_lem :
    (my : Position) (u v w : ℕ) → Inside my → w < 16 → in_window my u v w ≡ can_see_box my u v w
unfolding in_window in_floor can_see_box
in_window_lem my u v w h d =
    let west = h.west in let north = h.north in simp (==_self w) (ground arith)

shallow :
    (z w : ℕ) (b : Bool)
    → z ≤ 7
    → w < 16
    → (is_known w (7 ∷ 6 ∷ 5 ∷ 4 ∷ 3 ∷ 2 ∷ 1 ∷ 0 ∷ []) && b)
      ≡ (if (if leb z 7 then leb w 7 else leb z (w + 2) && leb w (z + 2)) then b else false)
unfolding is_known
shallow z w b h d = ground arith

deep :
    (z w : ℕ) (b : Bool)
    → 7 < z
    → z < 16
    → w < 16
    → (leb (z - 2) w && ltb w (z - 2 + (min 15 (z + 2) + 1 - (z - 2))) && b)
      ≡ (if (if leb z 7 then leb w 7 else leb z (w + 2) && leb w (z + 2)) then b else false)
deep z w b h k d = ground arith

can_see_lem :
    (my : Position) (u v w : ℕ)
    → Inside my
    → w < 16
    → (is_known w (floors_seen my.z) && in_window my u v w) ≡ can_see my u v w
unfolding floors_seen can_see can_see_box
can_see_lem my u v w h d =
    let depth = h.depth in
    rw (in_window_lem my u v w h d) (elim (Bool-cases (ltb 7 my.z)) [
      | inl e ↦
          simp (e, in_floors_up w (min 15 (my.z + 2) + 1 - (my.z - 2)) (my.z - 2))
            (deep my.z w (can_see_box my u v w) (ground (arith, e)) depth d)
      | inr e ↦ simp e (shallow my.z w (can_see_box my u v w) (ground (arith, e)) d)
    ])

-- Whether a client that is sent the surroundings of a player at `my` reads a tile at (u, v, w) in them,
-- where the map has that one tile.
pub reads_tile : Position → ℕ → ℕ → ℕ → Bool
reads_tile my u v w = any_tile (
    read_places
      (length (window_places (only u v w) (my.x - 8) (my.y - 6) my.z 18 14 (floors_seen my.z))) 0
      (get_map_description (only u v w) (my.x - 8) (my.y - 6) my.z 18 14))

-- A client reads the tile of a place in the map description that a player is sent exactly if the player can
-- see the place: the window and the floors that are sent are those of `canSee`. The player is 24 places or
-- more from the edges of the map, and the place is on one of the sixteen floors.
pub get_map_description-can_see :
    (my : Position) (u v w : ℕ) → Inside my → w < 16 → reads_tile my u v w ≡ can_see my u v w
unfolding reads_tile sent
get_map_description-can_see my u v w h d =
    ap any_tile (read_places-get_map_description (only u v w) (my.x - 8) (my.y - 6) my.z 18 14)
    ∙ (sent_floors my u v w (floors_seen my.z) h (close-floors_seen my.z h.depth)
        ∙ can_see_lem my u v w h d)

-- ===== src/WorldMap/Writes.antt =====
-- Writing a tile (src/map.cpp): the map is a partial function from places to tiles.
use infernum_data_pack.Base.{
  ℕ, ◌%◌, ◌<◌, ◌≡◌, ◌≢◌, refl, sym, ap, ◌∙◌, Bool, true, false, Option, none, some, ◌==◌, ◌&&◌, leb,
  if◌then◌else◌, arith, Bool-cases, inl, inr, ==→eq,
}
use infernum_data_pack.WorldMap.{
  Floor, QTreeLeaf, QTree, map_max_layers, floor_size, levels, get_leaf, create_leaf, change_leaf,
  floor_tile, leaf_tile, get_tile, is_there, link_leaf, tile_or, put_in_floor, floor_or_new,
  put_in_leaf, set_tile,
}
use infernum_data_pack.WorldMap.Levels.{agree-levels}
use infernum_data_pack.WorldMap.Leaves.{
  HasDepth, reaches, changed, create_leaf-HasDepth, change_leaf-HasDepth, get_leaf-reaches,
}
use infernum_data_pack.WorldMap.Tiles.{
  seen, Shows, changed_if, if-Shows, link-Shows, create-Shows, created,
}

module _ {ℓ} {T : Type ℓ} (merge : T → T → T) where
  -- What one place holds after something was put in a leaf.
  put_tile :
      (x y z u v w : ℕ) (t : T) (l : QTreeLeaf T)
      → leaf_tile u v w (some (put_in_leaf merge x y z t l)) ≡ (
          if u % floor_size == x % floor_size && v % floor_size == y % floor_size && w == z
          then some (tile_or merge (leaf_tile u v w (some l)) t)
          else leaf_tile u v w (some l))
  unfolding put_in_leaf
  put_tile x y z u v w t l = elim (Bool-cases (w == z)) [
    | inl e ↦ simp e (
        put_floor x y u v t (l.floors z)
        ∙ ap
            (λ k.
              both (u % floor_size == x % floor_size) (v % floor_size == y % floor_size) true
                (floor_tile u v (l.floors k)))
            (sym (==→eq w z e)))
    | inr e ↦ simp e (
        neither (u % floor_size == x % floor_size) (v % floor_size == y % floor_size)
          (some (tile_or merge (floor_tile u v (l.floors w)) t)) (floor_tile u v (l.floors w)))
  ]
    where
      both : Bool → Bool → Bool → Option T → Option T
      both a b c o = if a && b && c then some (tile_or merge o t) else o

      trail :
          (a b : Bool) (p q : Option T)
          → (if a && b then p else q) ≡ (if a && b && true then p else q)
      trail true true p q = refl
      trail true false p q = refl
      trail false b p q = refl

      put_floor :
          (x y u v : ℕ) (t : T) (o : Option (Floor T))
          → floor_tile u v
              (some (put_in_floor merge (x % floor_size) (y % floor_size) t (floor_or_new o)))
            ≡ (if u % floor_size == x % floor_size && v % floor_size == y % floor_size && true
                then some (tile_or merge (floor_tile u v o) t)
                else floor_tile u v o)
      put_floor x y u v t none =
          trail (u % floor_size == x % floor_size) (v % floor_size == y % floor_size) (some t) none
      put_floor x y u v t (some f) =
          trail (u % floor_size == x % floor_size) (v % floor_size == y % floor_size)
            (some (tile_or merge (f (u % floor_size) (v % floor_size)) t))
            (f (u % floor_size) (v % floor_size))

      neither : (a b : Bool) (p q : Option T) → q ≡ (if a && b && false then p else q)
      neither true true p q = refl
      neither true false p q = refl
      neither false b p q = refl

  put_tile_at :
      (x y z u v w : ℕ) (t : T) (r : Bool) (o : Option (QTreeLeaf T))
      → (r ≡ true → is_there o ≡ true)
      → leaf_tile u v w (if r then changed (put_in_leaf merge x y z t) o else o) ≡ (
          if r && (u % floor_size == x % floor_size && v % floor_size == y % floor_size && w == z)
          then some (tile_or merge (leaf_tile u v w o) t)
          else leaf_tile u v w o)
  put_tile_at x y z u v w t false o h = refl
  put_tile_at x y z u v w t true none h = absurd (false_true (h refl))
    where
      false_true : false ≢ true
      false_true e = ground arith
  put_tile_at x y z u v w t true (some l) h = put_tile x y z u v w t l

  -- The tile is put through the pointer to a leaf that exists.
  put_through :
      (x y z u v w : ℕ) (t : T) (s m : QTree T)
      → Shows s m
      → is_there (get_leaf x y s) ≡ true
      → seen u v w (change_leaf x y (put_in_leaf merge x y z t) s) ≡ (
          if reaches levels x y u v
            && (u % floor_size == x % floor_size && v % floor_size == y % floor_size && w == z)
          then some (tile_or merge (seen u v w m) t)
          else seen u v w m)
  put_through x y z u v w t s m h there =
      ap (leaf_tile u v w) (changed_if x y u v (put_in_leaf merge x y z t) s h.deep)
      ∙ (put_tile_at x y z u v w t (reaches levels x y u v) (get_leaf u v s)
            (λ e. ap is_there (sym (get_leaf-reaches levels x y u v s h.deep e)) ∙ there)
          ∙ ap
              (λ o.
                if reaches levels x y u v
                  && (u % floor_size == x % floor_size
                      && v % floor_size == y % floor_size
                      && w == z)
                then some (tile_or merge o t)
                else o)
              (h.same u v w))

  -- A place is its floor and the place on the floor.
  place_of :
      (x y z u v w : ℕ)
      → x < 65536
      → y < 65536
      → u < 65536
      → v < 65536
      → (reaches levels x y u v
          && (u % floor_size == x % floor_size && v % floor_size == y % floor_size && w == z))
        ≡ (u == x && v == y && w == z)
  place_of x y z u v w hx hy hu hv =
      rw (agree-levels x u hx hu, agree-levels y v hy hv) (ground arith)

  at_place :
      (x y z u v w : ℕ) (f : ℕ → ℕ → ℕ → Option T) (g : Option T → Option T)
      → (if u == x && v == y && w == z then g (f u v w) else f u v w)
        ≡ (if u == x && v == y && w == z then g (f x y z) else f u v w)
  at_place x y z u v w f g = elim (Bool-cases (u == x && v == y && w == z)) [
    | inr e ↦ simp e refl
    | inl e ↦ simp e (
        ap g (
          ap (λ k. f k v w) (ground (arith, e))
          ∙ (ap (λ k. f x k w) (ground (arith, e)) ∙ ap (λ k. f x y k) (ground (arith, e)))))
  ]

  linked : QTree T → ℕ → ℕ → QTree T
  linked m x y =
      if is_there (get_leaf x y m)
      then create_leaf levels x y m
      else link_leaf x y (create_leaf levels x y m)

  linked-Shows : (x y : ℕ) (m : QTree T) → HasDepth levels m → Shows (linked m x y) m
  unfolding linked
  linked-Shows x y m d =
      if-Shows _ _ _ m (create-Shows x y m d)
        (link-Shows x y (create_leaf levels x y m) m (create-Shows x y m d))

  linked_there :
      (x y : ℕ) (m : QTree T) → HasDepth levels m → is_there (get_leaf x y (linked m x y)) ≡ true
  unfolding linked
  linked_there x y m d = elim (Bool-cases (is_there (get_leaf x y m))) [
    | inl e ↦ simp e (created x y m d)
    | inr e ↦ simp e (
        (link-Shows x y (create_leaf levels x y m) (create_leaf levels x y m) (record {
          same = λ u v w. refl;
          deep = create_leaf-HasDepth levels x y m d;
          kept = λ u v h. h;
        })).kept
          x y (created x y m d))
  ]

  -- Writing a tile at a place that exists changes what the map holds at that place and nowhere else: the
  -- tile stands there or, where there was one, its things are added to that one. The map has its leaves
  -- on one level, and the coordinates are of 16 bits.
  pub get_tile-set_tile :
      (x y z u v w : ℕ) (t : T) (m : QTree T)
      → HasDepth levels m
      → x < 65536
      → y < 65536
      → z < map_max_layers
      → u < 65536
      → v < 65536
      → w < map_max_layers
      → get_tile u v w (set_tile merge x y z t m) ≡ (
          if u == x && v == y && w == z
          then some (tile_or merge (get_tile x y z m) t)
          else get_tile u v w m)
  unfolding get_tile set_tile linked
  get_tile-set_tile x y z u v w t m d hx hy hz hu hv hw =
      let no_z : leb map_max_layers z ≡ false = ground arith in
      let no_w : leb map_max_layers w ≡ false = ground arith in
      simp (no_z, no_w)
        (put_through x y z u v w t (linked m x y) m (linked-Shows x y m d) (linked_there x y m d)
          ∙ (ap (λ b. if b then some (tile_or merge (seen u v w m) t) else seen u v w m)
                (place_of x y z u v w hx hy hu hv)
              ∙ at_place x y z u v w (λ i j k. seen i j k m) (λ o. some (tile_or merge o t))))

  -- The leaves stay on one level, so that the map can be written again.
  pub set_tile-HasDepth :
      (x y z : ℕ) (t : T) (m : QTree T)
      → HasDepth levels m
      → HasDepth levels (set_tile merge x y z t m)
  unfolding set_tile linked
  set_tile-HasDepth x y z t m d = elim (Bool-cases (leb map_max_layers z)) [
    | inl e ↦ simp e d
    | inr e ↦ simp e (
        change_leaf-HasDepth levels x y (put_in_leaf merge x y z t) (linked m x y)
          (linked-Shows x y m d).deep)
  ]

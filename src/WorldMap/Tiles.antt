-- ===== src/WorldMap/Tiles.antt =====
-- What a map shows (src/map.cpp), and that making leaves and linking them does not show.
use infernum_data_pack.Base.{
  ℕ, ◌+◌, ◌-◌, ◌%◌, ◌≡◌, refl, ap, ◌∙◌, Bool, true, false, Option, none, some, if◌then◌else◌,
}
use infernum_data_pack.WorldMap.{
  QTreeLeaf, QTree, floor_size, levels, get_leaf, create_leaf, change_leaf, floor_tile, leaf_tile,
  point_south, point_east, is_there, link_leaf,
}
use infernum_data_pack.WorldMap.Levels.{agree_self}
use infernum_data_pack.WorldMap.Leaves.{
  HasDepth, reaches, leaf_or_new, changed, create_leaf-HasDepth, change_leaf-HasDepth,
  get_leaf-create_leaf, get_leaf-change_leaf, get_leaf-reaches,
}

module _ {ℓ} {T : Type ℓ} where
  -- What a place holds, on floors that exist.
  abbrev pub seen : ℕ → ℕ → ℕ → QTree T → Option T
  seen u v w t = leaf_tile u v w (get_leaf u v t)

  -- Two maps that show the same tiles and have the same leaves.
  pub record Shows (s t : QTree T) : Type ℓ where
    pub same : (u v w : ℕ) → seen u v w s ≡ seen u v w t
    pub deep : HasDepth levels s
    pub kept : (u v : ℕ) → is_there (get_leaf u v t) ≡ true → is_there (get_leaf u v s) ≡ true

  pub changed_if :
      (x y u v : ℕ) (f : QTreeLeaf T → QTreeLeaf T) (t : QTree T)
      → HasDepth levels t
      → get_leaf u v (change_leaf x y f t)
        ≡ (if reaches levels x y u v then changed f (get_leaf u v t) else get_leaf u v t)
  changed_if x y u v f t d =
      get_leaf-change_leaf levels x y u v f t d
      ∙ pick (reaches levels x y u v) (changed f (get_leaf x y t)) (changed f (get_leaf u v t))
          (get_leaf u v t) (λ e. ap (changed f) (get_leaf-reaches levels x y u v t d e))
    where
      pick :
          (r : Bool) (a b c : Option (QTreeLeaf T))
          → (r ≡ true → a ≡ b)
          → (if r then a else c) ≡ (if r then b else c)
      pick true a b c h = h refl
      pick false a b c h = refl

  -- Turning a leaf's links does not show.
  change-Shows :
      (x y : ℕ) (f : QTreeLeaf T → QTreeLeaf T) (s t : QTree T)
      → ((l : QTreeLeaf T) → (f l).floors ≡ l.floors)
      → Shows s t
      → Shows (change_leaf x y f s) t
  change-Shows x y f s t keeps h = record {
    same = λ u v w.
        ap (leaf_tile u v w) (changed_if x y u v f s h.deep)
        ∙ (still u v w (reaches levels x y u v) (get_leaf u v s) ∙ h.same u v w);
    deep = change_leaf-HasDepth levels x y f s h.deep;
    kept = λ u v e.
        ap is_there (changed_if x y u v f s h.deep)
        ∙ (stays (reaches levels x y u v) (get_leaf u v s) ∙ h.kept u v e);
  }
    where
      still :
          (u v w : ℕ) (b : Bool) (o : Option (QTreeLeaf T))
          → leaf_tile u v w (if b then changed f o else o) ≡ leaf_tile u v w o
      still u v w true none = refl
      still u v w true (some l) = ap (λ g. floor_tile u v (g w)) (keeps l)
      still u v w false o = refl

      stays :
          (b : Bool) (o : Option (QTreeLeaf T))
          → is_there (if b then changed f o else o) ≡ is_there o
      stays true none = refl
      stays true (some l) = refl
      stays false o = refl

  pub if-Shows : (b : Bool) (r s t : QTree T) → Shows r t → Shows s t → Shows (if b then r else s) t
  if-Shows true r s t h k = h
  if-Shows false r s t h k = k

  pub link-Shows : (x y : ℕ) (s t : QTree T) → Shows s t → Shows (link_leaf x y s) t
  unfolding link_leaf
  link-Shows x y s t h =
      let s1 =
        change-Shows x ((y + 65536 - floor_size) % 65536) (point_south x y) s t (λ l. refl) h in
      let s2 =
        change-Shows ((x + 65536 - floor_size) % 65536) y (point_east x y) _ t (λ l. refl) s1 in
      let s3 =
        if-Shows _ _ _ t (change-Shows x y (point_south x (y + floor_size)) _ t (λ l. refl) s2)
          s2 in
      if-Shows _ _ _ t (change-Shows x y (point_east (x + floor_size) y) _ t (λ l. refl) s3) s3

  -- Creating a leaf does not show either, and makes the leaf exist.
  pub create-Shows :
      (x y : ℕ) (t : QTree T) → HasDepth levels t → Shows (create_leaf levels x y t) t
  create-Shows x y t d = record {
    same = λ u v w.
        ap (leaf_tile u v w) (get_leaf-create_leaf levels x y u v t d)
        ∙ fresh u v w (reaches levels x y u v) (get_leaf x y t) (get_leaf u v t)
            (get_leaf-reaches levels x y u v t d);
    deep = create_leaf-HasDepth levels x y t d;
    kept = λ u v e.
        ap is_there (get_leaf-create_leaf levels x y u v t d)
        ∙ stays (reaches levels x y u v) (get_leaf x y t) (get_leaf u v t) e;
  }
    where
      fresh :
          (u v w : ℕ) (b : Bool) (o p : Option (QTreeLeaf T))
          → (b ≡ true → o ≡ p)
          → leaf_tile u v w (if b then some (leaf_or_new o) else p) ≡ leaf_tile u v w p
      fresh u v w true none p h = ap (leaf_tile u v w) (h refl)
      fresh u v w true (some l) p h = ap (leaf_tile u v w) (h refl)
      fresh u v w false o p h = refl

      stays :
          (b : Bool) (o p : Option (QTreeLeaf T))
          → is_there p ≡ true
          → is_there (if b then some (leaf_or_new o) else p) ≡ true
      stays true o p e = refl
      stays false o p e = e

  pub created :
      (x y : ℕ) (t : QTree T)
      → HasDepth levels t
      → is_there (get_leaf x y (create_leaf levels x y t)) ≡ true
  created x y t d =
      ap is_there (get_leaf-create_leaf levels x y x y t d)
      ∙ simp (agree_self levels x, agree_self levels y) refl

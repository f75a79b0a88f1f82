-- ===== src/WorldMap/Leaves.antt =====
-- What creating and changing a leaf does to the leaves that are read.
use infernum_data_pack.Base.{
  ℕ, zero, suc, ◌*◌, ◌≡◌, refl, sym, ap, ap₂, ◌∙◌, Bool, true, false, Option, none, some, ◌&&◌,
  if◌then◌else◌, arith,
}
use infernum_data_pack.WorldMap.{
  QTreeLeaf, QTree, missing, node, leaf, new_leaf, is_high, same_bit, put, get_leaf, create_leaf,
  change_leaf,
}
use infernum_data_pack.WorldMap.Levels.{agree}

-- Whether a place takes the way to another on `n` levels.
abbrev pub reaches : ℕ → ℕ → ℕ → ℕ → ℕ → Bool
reaches n x y u v = agree n x u && agree n y v

module _ {ℓ} {T : Type ℓ} where
  -- All leaves lie `n` levels down.
  pub data HasDepth : ℕ → QTree T → Type ℓ where
    nothing : (n : ℕ) → HasDepth n missing
    bottom : (l : QTreeLeaf T) → HasDepth zero (leaf l)
    branch :
        (n : ℕ) (child : Bool → Bool → QTree T)
        → ((i j : Bool) → HasDepth n (child i j))
        → HasDepth (suc n) (node child)

  abbrev pub leaf_or_new : Option (QTreeLeaf T) → QTreeLeaf T
  leaf_or_new none = new_leaf
  leaf_or_new (some l) = l

  abbrev pub changed : (QTreeLeaf T → QTreeLeaf T) → Option (QTreeLeaf T) → Option (QTreeLeaf T)
  changed f none = none
  changed f (some l) = some (f l)

  put-HasDepth :
      (n : ℕ) (i j : Bool) (t : QTree T) (child : Bool → Bool → QTree T)
      → HasDepth n t
      → ((p q : Bool) → HasDepth n (child p q))
      → (p q : Bool) → HasDepth n (put i j t child p q)
  put-HasDepth n i j t child h k p q =
      elim (same_bit i p && same_bit j q) as (λ b. HasDepth n (if b then t else child p q)) [
        | true ↦ h
        | false ↦ k p q
      ]

  pub create_leaf-HasDepth :
      (n x y : ℕ) (t : QTree T) → HasDepth n t → HasDepth n (create_leaf n x y t)
  unfolding create_leaf
  create_leaf-HasDepth zero x y _ (nothing n) = bottom new_leaf
  create_leaf-HasDepth zero x y _ (bottom l) = bottom l
  create_leaf-HasDepth (suc n) x y _ (nothing m) = branch n _ (
      put-HasDepth n (is_high x) (is_high y) (create_leaf n (x * 2) (y * 2) missing)
        (λ p q. missing) (create_leaf-HasDepth n (x * 2) (y * 2) missing (nothing n))
        (λ p q. nothing n))
  create_leaf-HasDepth (suc n) x y _ (branch m child h) = branch n _ (
      put-HasDepth n (is_high x) (is_high y)
        (create_leaf n (x * 2) (y * 2) (child (is_high x) (is_high y))) child
        (create_leaf-HasDepth n (x * 2) (y * 2) (child (is_high x) (is_high y))
          (h (is_high x) (is_high y)))
        h)

  pub change_leaf-HasDepth :
      (n x y : ℕ) (f : QTreeLeaf T → QTreeLeaf T) (t : QTree T)
      → HasDepth n t
      → HasDepth n (change_leaf x y f t)
  unfolding change_leaf
  change_leaf-HasDepth n x y f _ (nothing m) = nothing n
  change_leaf-HasDepth n x y f _ (bottom l) = bottom (f l)
  change_leaf-HasDepth (suc n) x y f _ (branch m child h) = branch n _ (
      put-HasDepth n (is_high x) (is_high y)
        (change_leaf (x * 2) (y * 2) f (child (is_high x) (is_high y))) child
        (change_leaf-HasDepth n (x * 2) (y * 2) f (child (is_high x) (is_high y))
          (h (is_high x) (is_high y)))
        h)

  same_if : (b : Bool) (o : Option (QTreeLeaf T)) → o ≡ (if b then o else o)
  same_if true o = refl
  same_if false o = refl

  -- One level: what is read through a node of which one child was replaced.
  replaced :
      (i j p q r c : Bool) (t : QTree T) (child : Bool → Bool → QTree T) (u v : ℕ)
      (new : Option (QTreeLeaf T))
      → get_leaf u v t ≡ (if r && c then new else get_leaf u v (child i j))
      → get_leaf u v (put i j t child p q)
        ≡ (if (same_bit i p && r) && (same_bit j q && c) then new else get_leaf u v (child p q))
  replaced true true true true r c t child u v new h = h
  replaced true false true false r c t child u v new h = h
  replaced false true false true r c t child u v new h = h
  replaced false false false false r c t child u v new h = h
  replaced true j false q r c t child u v new h = refl
  replaced false j true q r c t child u v new h = refl
  replaced true true true false true c t child u v new h = refl
  replaced true true true false false c t child u v new h = refl
  replaced true false true true true c t child u v new h = refl
  replaced true false true true false c t child u v new h = refl
  replaced false true false false true c t child u v new h = refl
  replaced false true false false false c t child u v new h = refl
  replaced false false false true true c t child u v new h = refl
  replaced false false false true false c t child u v new h = refl

  -- Creating the leaf of a place makes it exist, with what it held, and touches no other leaf.
  pub get_leaf-create_leaf :
      (n x y u v : ℕ) (t : QTree T)
      → HasDepth n t
      → get_leaf u v (create_leaf n x y t)
        ≡ (if reaches n x y u v then some (leaf_or_new (get_leaf x y t)) else get_leaf u v t)
  unfolding create_leaf get_leaf agree
  get_leaf-create_leaf zero x y u v _ (nothing m) = refl
  get_leaf-create_leaf zero x y u v _ (bottom l) = refl
  get_leaf-create_leaf (suc n) x y u v _ (nothing m) =
      replaced (is_high x) (is_high y) (is_high u) (is_high v) (agree n (x * 2) (u * 2))
        (agree n (y * 2) (v * 2)) (create_leaf n (x * 2) (y * 2) missing) (λ p q. missing) (u * 2)
        (v * 2) (some new_leaf)
        (get_leaf-create_leaf n (x * 2) (y * 2) (u * 2) (v * 2) missing (nothing n))
  get_leaf-create_leaf (suc n) x y u v _ (branch m child h) =
      replaced (is_high x) (is_high y) (is_high u) (is_high v) (agree n (x * 2) (u * 2))
        (agree n (y * 2) (v * 2)) (create_leaf n (x * 2) (y * 2) (child (is_high x) (is_high y)))
        child (u * 2) (v * 2)
        (some (leaf_or_new (get_leaf (x * 2) (y * 2) (child (is_high x) (is_high y)))))
        (get_leaf-create_leaf n (x * 2) (y * 2) (u * 2) (v * 2) (child (is_high x) (is_high y))
          (h (is_high x) (is_high y)))

  -- Changing a leaf through its pointer touches no other leaf.
  pub get_leaf-change_leaf :
      (n x y u v : ℕ) (f : QTreeLeaf T → QTreeLeaf T) (t : QTree T)
      → HasDepth n t
      → get_leaf u v (change_leaf x y f t)
        ≡ (if reaches n x y u v then changed f (get_leaf x y t) else get_leaf u v t)
  unfolding change_leaf get_leaf agree
  get_leaf-change_leaf zero x y u v f _ (nothing m) = refl
  get_leaf-change_leaf (suc n) x y u v f _ (nothing m) = same_if (reaches (suc n) x y u v) none
  get_leaf-change_leaf zero x y u v f _ (bottom l) = refl
  get_leaf-change_leaf (suc n) x y u v f _ (branch m child h) =
      replaced (is_high x) (is_high y) (is_high u) (is_high v) (agree n (x * 2) (u * 2))
        (agree n (y * 2) (v * 2)) (change_leaf (x * 2) (y * 2) f (child (is_high x) (is_high y)))
        child (u * 2) (v * 2) (changed f (get_leaf (x * 2) (y * 2) (child (is_high x) (is_high y))))
        (get_leaf-change_leaf n (x * 2) (y * 2) (u * 2) (v * 2) f (child (is_high x) (is_high y))
          (h (is_high x) (is_high y)))

  -- Places that take the same way come to the same leaf.
  pub get_leaf-reaches :
      (n x y u v : ℕ) (t : QTree T)
      → HasDepth n t
      → reaches n x y u v ≡ true
      → get_leaf x y t ≡ get_leaf u v t
  unfolding get_leaf agree
  get_leaf-reaches n x y u v _ (nothing m) e = refl
  get_leaf-reaches zero x y u v _ (bottom l) e = refl
  get_leaf-reaches (suc n) x y u v _ (branch m child h) e =
      let (ex, ey) =
        both (same_bit (is_high x) (is_high u)) (agree n (x * 2) (u * 2))
          (same_bit (is_high y) (is_high v)) (agree n (y * 2) (v * 2)) e in
      get_leaf-reaches n (x * 2) (y * 2) (u * 2) (v * 2) (child (is_high x) (is_high y))
        (h (is_high x) (is_high y)) ey
      ∙ ap (get_leaf (u * 2) (v * 2)) (
          ap₂ child (same_bit-eq (is_high x) (is_high u) ex.0)
            (same_bit-eq (is_high y) (is_high v) ex.1))
    where
      both :
          (a b c d : Bool)
          → ((a && b) && (c && d)) ≡ true
          → ((a ≡ true) × (c ≡ true)) × ((b && d) ≡ true)
      both a b c d e = ground (arith, e)

      same_bit-eq : (i p : Bool) → same_bit i p ≡ true → i ≡ p
      same_bit-eq true true e = refl
      same_bit-eq true false e = sym e
      same_bit-eq false true e = e
      same_bit-eq false false e = refl

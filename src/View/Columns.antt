-- ===== src/View/Columns.antt =====
-- Which places the loops over the columns of a floor go through (src/protocolgame.cpp).
use infernum_data_pack.Base.{
  ℕ, zero, suc, ◌+◌, ◌%◌, ◌≤◌, ◌<◌, ◌≡◌, refl, ap, ap₂, ◌∙◌, Bool, true, false, List, [], ◌∷◌, ◌++◌,
  Option, none, some, ◌==◌, ◌&&◌, ◌||◌, ltb, leb, if◌then◌else◌, arith,
}
use infernum_data_pack.View.Skips.{column_places, floor_places}

-- Whether some place of a list holds a tile.
unfoldable pub any_tile {ℓ} : {T : Type ℓ} → List (Option T) → Bool
any_tile [] = false
any_tile (none ∷ os) = any_tile os
any_tile (some t ∷ os) = true

pub any_tile_append {ℓ} :
    {T : Type ℓ} (os ps : List (Option T)) → any_tile (os ++ ps) ≡ any_tile os || any_tile ps
unfolding any_tile
any_tile_append [] ps = refl
any_tile_append (none ∷ os) ps = any_tile_append os ps
any_tile_append (some t ∷ os) ps = refl

-- A map with one tile, at (u, v, w).
unfoldable pub only : ℕ → ℕ → ℕ → ℕ → ℕ → ℕ → Option Bool
only u v w x y z = if x == u && y == v && z == w then some true else none

any_tile_head :
    (b : Bool) (os : List (Option Bool))
    → any_tile ((if b then some true else none) ∷ os) ≡ b || any_tile os
unfolding any_tile
any_tile_head true os = refl
any_tile_head false os = refl

in_column : ℕ → ℕ → ℕ → ℕ → ℕ → ℕ → ℕ → Bool
in_column u v w n x y z = x == u && z == w && leb y v && ltb v (y + n)

unfoldable pub in_floor : ℕ → ℕ → ℕ → ℕ → ℕ → ℕ → ℕ → ℕ → Bool
in_floor u v w m n x y z = leb x u && ltb u (x + m) && z == w && leb y v && ltb v (y + n)

in_column_head :
    (u v w c d n x y z : ℕ)
    → c % 65536 ≡ 0
    → d % 65536 ≡ 0
    → x < 65536
    → y < 65536
    → (((c + x) % 65536 == u && (d + y) % 65536 == v && z == w) || in_column u v w n x (y + 1) z)
      ≡ in_column u v w (suc n) x y z
unfolding in_column
in_column_head u v w c d n x y z hc hd hx hy =
    let ex : (c + x) % 65536 ≡ x = omega arith in
    let ey : (d + y) % 65536 ≡ y = omega arith in simp (ex, ey) (ground arith)

column_only :
    (u v w c d n x y z : ℕ)
    → c % 65536 ≡ 0
    → d % 65536 ≡ 0
    → x < 65536
    → y + n ≤ 65536
    → any_tile (column_places (only u v w) n (c + x) (d + y) z) ≡ in_column u v w n x y z
unfolding any_tile column_places only
column_only u v w c d zero x y z hc hd hx hy = unfold in_column in ground arith
column_only u v w c d (suc n) x y z hc hd hx hy =
    any_tile_head ((c + x) % 65536 == u && (d + y) % 65536 == v && z == w)
      (column_places (only u v w) n (c + x) (d + y + 1) z)
    ∙ (ap (λ b. ((c + x) % 65536 == u && (d + y) % 65536 == v && z == w) || b)
          (ap (λ k. any_tile (column_places (only u v w) n (c + x) k z)) (omega arith)
            ∙ column_only u v w c d n x (y + 1) z hc hd hx (omega arith))
        ∙ in_column_head u v w c d n x y z hc hd hx (omega arith))

in_floor_head :
    (u v w m n x y z : ℕ)
    → (in_column u v w n x y z || in_floor u v w m n (x + 1) y z) ≡ in_floor u v w (suc m) n x y z
unfolding in_column in_floor
in_floor_head u v w m n x y z = ground arith

pub floor_only :
    (u v w c d m n x y z : ℕ)
    → c % 65536 ≡ 0
    → d % 65536 ≡ 0
    → x + m ≤ 65536
    → y + n ≤ 65536
    → any_tile (floor_places (only u v w) m n (c + x) (d + y) z) ≡ in_floor u v w m n x y z
unfolding any_tile floor_places
floor_only u v w c d zero n x y z hc hd hx hy = unfold in_floor in ground arith
floor_only u v w c d (suc m) n x y z hc hd hx hy =
    any_tile_append (column_places (only u v w) n (c + x) (d + y) z)
      (floor_places (only u v w) m n (c + x + 1) (d + y) z)
    ∙ (ap₂ ◌||◌ (column_only u v w c d n x y z hc hd (omega arith) hy) (
          ap (λ k. any_tile (floor_places (only u v w) m n k (d + y) z)) (omega arith)
          ∙ floor_only u v w c d m n (x + 1) y z hc hd (omega arith) hy)
        ∙ in_floor_head u v w m n x y z)

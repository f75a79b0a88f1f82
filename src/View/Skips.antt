-- ===== src/View/Skips.antt =====
-- A client reads the places of a map description back (src/protocolgame.cpp).
use infernum_data_pack.Base.{
  ℕ, zero, suc, ◌+◌, ◌-◌, ◌%◌, ◌≤◌, ◌≡◌, refl, sym, ap, ◌∙◌, List, [], ◌∷◌, ◌++◌, append_assoc,
  Option, none, some, length, ◌==◌, if◌then◌else◌, arith, Bool-cases, inl, inr, ==→eq,
}
use infernum_data_pack.View.{
  Part, tile_part, skip_part, Writing, flush, describe_place, describe_column, describe_columns,
  get_floor_description, describe_floors, get_map_description, floors_seen,
}

suc_add : (k n : ℕ) → suc k + n ≡ suc (k + n)
suc_add k n = omega arith

module _ {ℓ} {T : Type ℓ} where
  -- The client's side: of `n` places, `k` are skipped before the next part is read. A part that only skips
  -- stands for an empty place and then skips, one behind a tile skips after the tile.
  unfoldable pub read_places : ℕ → ℕ → List (Part T) → List (Option T)
  read_places zero k ps = []
  read_places (suc n) (suc k) ps = none ∷ read_places n k ps
  read_places (suc n) zero [] = none ∷ read_places n zero []
  read_places (suc n) zero (skip_part g ∷ ps) = none ∷ read_places n g ps
  read_places (suc n) zero (tile_part t ∷ []) = some t ∷ read_places n zero []
  read_places (suc n) zero (tile_part t ∷ skip_part g ∷ ps) = some t ∷ read_places n g ps
  read_places (suc n) zero (tile_part t ∷ tile_part u ∷ ps) =
      some t ∷ read_places n zero (tile_part u ∷ ps)

  -- What the server writes for the rest of the places.
  emit : Option ℕ → List (Option T) → List (Part T)
  emit s [] = flush s
  emit s (some t ∷ os) = flush s ++ (tile_part t ∷ emit (some 0) os)
  emit none (none ∷ os) = emit (some 0) os
  emit (some k) (none ∷ os) =
      let later = emit (some (k + 1)) os in
      let anew = skip_part 255 ∷ emit none os in if k == 254 then anew else later

  describe_all : List (Option T) → Writing T → Writing T
  describe_all [] w = w
  describe_all (o ∷ os) w = describe_all os (describe_place o w)

  finished : Writing T → List (Part T)
  finished w = w.written ++ flush w.skip

  describe_all-emit :
      (os : List (Option T)) (s : Option ℕ) (ps : List (Part T))
      → finished (describe_all os (record { skip = s; written = ps })) ≡ ps ++ emit s os
  unfolding describe_all finished emit describe_place
  describe_all-emit [] s ps = refl
  describe_all-emit (some t ∷ os) s ps =
      describe_all-emit os (some 0) (ps ++ (flush s ++ (tile_part t ∷ [])))
      ∙ (append_assoc ps (flush s ++ (tile_part t ∷ [])) (emit (some 0) os)
          ∙ ap (λ l. ps ++ l) (append_assoc (flush s) (tile_part t ∷ []) (emit (some 0) os)))
  describe_all-emit (none ∷ os) none ps = describe_all-emit os (some 0) ps
  describe_all-emit (none ∷ os) (some k) ps =
      let anew =
        describe_all-emit os none (ps ++ (skip_part 255 ∷ []))
        ∙ append_assoc ps (skip_part 255 ∷ []) (emit none os) in
      let later = describe_all-emit os (some (k + 1)) ps in
      elim (Bool-cases (k == 254)) [ inl e ↦ simp e anew | inr e ↦ simp e later ]

  nones : ℕ → List (Option T) → List (Option T)
  nones zero os = os
  nones (suc k) os = none ∷ nones k os

  nones-none : (k : ℕ) (os : List (Option T)) → nones (k + 1) os ≡ nones k (none ∷ os)
  unfolding nones
  nones-none zero os = refl
  nones-none (suc k) os = ap (λ n. nones n os) (suc_add k 1) ∙ ap (λ l. none ∷ l) (nones-none k os)

  read_places_skip :
      (k n : ℕ) (ps : List (Part T)) → read_places (k + n) k ps ≡ nones k (read_places n 0 ps)
  unfolding read_places nones
  read_places_skip zero n ps = ap (λ m. read_places m 0 ps) (omega arith)
  read_places_skip (suc k) n ps =
      ap (λ m. read_places m (suc k) ps) (suc_add k n)
      ∙ ap (λ l. none ∷ l) (read_places_skip k n ps)

  -- Parts that start by skipping and give `k` empty places before the others.
  record Skips (k : ℕ) (os : List (Option T)) (ps : List (Part T)) : Type ℓ where
    gap : ℕ
    rest : List (Part T)
    starts : ps ≡ skip_part gap ∷ rest
    reads : read_places (k + length os) gap rest ≡ nones k os

  read_tile :
      (t : T) (os : List (Option T)) (ps : List (Part T))
      → Skips 0 os ps
      → read_places (suc (length os)) 0 (tile_part t ∷ ps) ≡ some t ∷ os
  unfolding read_places nones
  read_tile t os ps s =
      ap (λ l. read_places (suc (length os)) 0 (tile_part t ∷ l)) s.starts
      ∙ ap (λ l. some t ∷ l) (ap (λ n. read_places n s.gap s.rest) (omega arith) ∙ s.reads)

  read_empty :
      (os : List (Option T)) (ps : List (Part T))
      → Skips 0 os ps
      → read_places (suc (length os)) 0 ps ≡ none ∷ os
  unfolding read_places nones
  read_empty os ps s =
      ap (λ l. read_places (suc (length os)) 0 l) s.starts
      ∙ ap (λ l. none ∷ l) (ap (λ n. read_places n s.gap s.rest) (omega arith) ∙ s.reads)

  one_more :
      (os : List (Option T)) (k : ℕ) (ps : List (Part T))
      → Skips (k + 1) os ps
      → Skips k (none ∷ os) ps
  one_more os k ps s = record {
    gap = s.gap;
    rest = s.rest;
    starts = s.starts;
    reads = ap (λ n. read_places n s.gap s.rest) (omega arith) ∙ (s.reads ∙ nones-none k os);
  }

  at_255 :
      (os : List (Option T)) (k : ℕ)
      → k ≡ 254
      → read_places (length os) 0 (emit none os) ≡ os
      → read_places (k + length (none ∷ os)) 255 (emit none os) ≡ nones k (none ∷ os)
  at_255 os k e h =
      ap (λ n. read_places n 255 (emit none os)) (omega arith)
      ∙ (read_places_skip 255 (length os) (emit none os)
          ∙ (ap (nones 255) h ∙ (nones-none 254 os ∙ ap (λ n. nones n (none ∷ os)) (sym e))))

  mutual
    unfolding emit nones read_places

    emit-Skips : (os : List (Option T)) (k : ℕ) → k ≤ 254 → Skips k os (emit (some k) os)
    emit-Skips [] k h = record {
      gap = k;
      rest = [];
      starts = refl;
      reads = read_places_skip k 0 [];
    }
    emit-Skips (some t ∷ os) k h = record {
      gap = k;
      rest = tile_part t ∷ emit (some 0) os;
      starts = refl;
      reads =
          read_places_skip k (suc (length os)) (tile_part t ∷ emit (some 0) os)
          ∙ ap (nones k) (read_tile t os (emit (some 0) os) (emit-Skips os 0 (omega arith)));
    }
    emit-Skips (none ∷ os) k h = elim (Bool-cases (k == 254)) [
      | inl e ↦ simp e (record {
        gap = 255;
        rest = emit none os;
        starts = refl;
        reads = at_255 os k (==→eq k 254 e) (read_places-emit os);
      })
      | inr e ↦
          simp e
            (one_more os k (emit (some (k + 1)) os) (emit-Skips os (k + 1) (ground (arith, e, h))))
    ]

    read_places-emit : (os : List (Option T)) → read_places (length os) 0 (emit none os) ≡ os
    read_places-emit [] = refl
    read_places-emit (some t ∷ os) =
        read_tile t os (emit (some 0) os) (emit-Skips os 0 (omega arith))
    read_places-emit (none ∷ os) = read_empty os (emit (some 0) os) (emit-Skips os 0 (omega arith))

  describe_all_append :
      (os ps : List (Option T)) (w : Writing T)
      → describe_all (os ++ ps) w ≡ describe_all ps (describe_all os w)
  unfolding describe_all
  describe_all_append [] ps w = refl
  describe_all_append (o ∷ os) ps w = describe_all_append os ps (describe_place o w)

  -- The places of a window, floor by floor, column by column and from north to south, whose coordinates are
  -- taken modulo 2 ^ 16.
  module _ (get_tile : ℕ → ℕ → ℕ → Option T) where
    unfoldable pub column_places : ℕ → ℕ → ℕ → ℕ → List (Option T)
    column_places zero x y z = []
    column_places (suc n) x y z = get_tile (x % 65536) (y % 65536) z ∷ column_places n x (y + 1) z

    unfoldable pub floor_places : ℕ → ℕ → ℕ → ℕ → ℕ → List (Option T)
    unfolding column_places
    floor_places zero height x y z = []
    floor_places (suc n) height x y z =
        column_places height x y z ++ floor_places n height (x + 1) y z

    unfoldable pub window_places : ℕ → ℕ → ℕ → ℕ → ℕ → List ℕ → List (Option T)
    unfolding floor_places
    window_places x y z width height [] = []
    window_places x y z width height (nz ∷ zs) =
        floor_places width height (x + (z + 65536 - nz) % 65536) (y + (z + 65536 - nz) % 65536) nz
        ++ window_places x y z width height zs

    describe_column_lem :
        (n x y z : ℕ) (w : Writing T)
        → describe_column get_tile n x y z w ≡ describe_all (column_places n x y z) w
    unfolding describe_column column_places describe_all
    describe_column_lem zero x y z w = refl
    describe_column_lem (suc n) x y z w =
        describe_column_lem n x (y + 1) z (describe_place (get_tile (x % 65536) (y % 65536) z) w)

    describe_columns_lem :
        (n height x y z : ℕ) (w : Writing T)
        → describe_columns get_tile n height x y z w ≡ describe_all (floor_places n height x y z) w
    unfolding describe_columns floor_places describe_all
    describe_columns_lem zero height x y z w = refl
    describe_columns_lem (suc n) height x y z w =
        describe_columns_lem n height (x + 1) y z (describe_column get_tile height x y z w)
        ∙ (ap (describe_all (floor_places n height (x + 1) y z))
              (describe_column_lem height x y z w)
            ∙ sym (
                describe_all_append (column_places height x y z) (floor_places n height (x + 1) y z)
                  w))

    describe_floors_lem :
        (x y z width height : ℕ) (zs : List ℕ) (w : Writing T)
        → describe_floors get_tile x y z width height zs w
          ≡ describe_all (window_places x y z width height zs) w
    unfolding describe_floors window_places describe_all get_floor_description
    describe_floors_lem x y z width height [] w = refl
    describe_floors_lem x y z width height (nz ∷ zs) w =
        let d = (z + 65536 - nz) % 65536 in
        describe_floors_lem x y z width height zs
          (describe_columns get_tile width height (x + d) (y + d) nz w)
        ∙ (ap (describe_all (window_places x y z width height zs))
              (describe_columns_lem width height (x + d) (y + d) nz w)
            ∙ sym (
                describe_all_append (floor_places width height (x + d) (y + d) nz)
                  (window_places x y z width height zs) w))

    -- A client that reads a map description back gets every place of the window, in the order of the
    -- loops: the tile that stands there, or none, however the runs of empty places are cut.
    pub read_places-get_map_description :
        (x y z width height : ℕ)
        → (let places = window_places x y z width height (floors_seen z) in
            read_places (length places) 0 (get_map_description get_tile x y z width height)
            ≡ places)
    unfolding get_map_description finished
    read_places-get_map_description x y z width height =
        let places = window_places x y z width height (floors_seen z) in
        ap (read_places (length places) 0) (
          ap finished (
            describe_floors_lem x y z width height (floors_seen z)
              (record { skip = none; written = [] }))
          ∙ describe_all-emit places none [])
        ∙ read_places-emit places

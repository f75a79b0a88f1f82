-- ===== src/Containers/Holding.antt =====
-- What `isHoldingItem`, `getItemHoldingCount` and the weight of a container tell (src/container.cpp).
use infernum_data_pack.Base.{
  ℕ, zero, suc, ◌+◌, ◌%◌, ◌<◌, ◌≤◌, ◌≡◌, ◌≢◌, refl, sym, ap, ◌∙◌, subst, Bool, true, false, ◌==◌,
  List, [], ◌∷◌, some, if◌then◌else◌, arith, ==_self, ==_ne, Bool-cases, inl, inr,
}
use infernum_data_pack.Containers.{
  Parent, nowhere, in_container, on_tile, carried_by, Kinds, Store, word, item_weight,
}
use infernum_data_pack.Containers.Iterator.{contains, iterator, visit, is_holding_item}
use infernum_data_pack.Containers.Sums.{sum_of, times}
use infernum_data_pack.Containers.Nesting.{
  Above, here, inside, Rooted, root_cases, is_inside, held_in, not_inside_own, parent_Rooted,
}
use infernum_data_pack.Containers.Balance.{held_outside}
use infernum_data_pack.Containers.Intact.{IsIntact}
use infernum_data_pack.Containers.Under.{under, under_unique, total_weight-under}
use infernum_data_pack.Containers.Visits.{visit_all}

-- Item `x` lies in container `c`, directly or in other containers.
unfoldable pub Inside : (ℕ → Parent) → ℕ → ℕ → Type 0
Inside parent c x = (p : ℕ) × (parent x ≡ in_container p) × Above parent c p

module _ (s : Store) where
  -- How often `c` is met on the way out.
  met : ℕ → Parent → ℕ → ℕ
  met (suc n) (in_container p) c = (if c == p then 1 else 0) + met n (s.parent p) c
  met _ q c = 0

  met_outside : (n : ℕ) (q : Parent) (c : ℕ) → is_inside q ≡ false → met n q c ≡ 0
  unfolding met
  met_outside zero q c e = refl
  met_outside (suc n) nowhere c e = refl
  met_outside (suc n) (in_container p) c e = absurd (ground (arith, e))
  met_outside (suc n) on_tile c e = refl
  met_outside (suc n) (carried_by p) c e = refl

  met_zero :
      (n i c : ℕ)
      → Rooted s.parent s.itemlist n i
      → ¬ Inside s.parent c i
      → met n (s.parent i) c ≡ 0
  unfolding met Inside
  met_zero zero i c r h = elim r [ ]
  met_zero (suc n) i c r h = elim (root_cases s.parent s.itemlist n i r) [
    | inl (l, e) ↦ met_outside (suc n) (s.parent i) c e
    | inr (l, (p, e, up)) ↦ rw e (
        zeros (c == p) _ (==_ne c p (λ f. h (p, e, subst (Above s.parent c) f here)))
          (met_zero n p c up (λ u. h (p, e, inside p u.0 u.1 u.2))))
  ]
    where
      zeros : (b : Bool) (t : ℕ) → b ≡ false → t ≡ 0 → (if b then 1 else 0) + t ≡ 0
      zeros b t f e = ground (arith, f, e)

  not_in_itself : (n c : ℕ) → Rooted s.parent s.itemlist n c → ¬ Inside s.parent c c
  unfolding Inside
  not_in_itself zero c r u = elim r [ ]
  not_in_itself (suc n) c r u =
      not_inside_own s.parent s.itemlist n u.0 c (parent_Rooted s.parent s.itemlist n c u.0 r u.1)
        u.1 u.2

  met_once :
      (n i c p : ℕ)
      → Rooted s.parent s.itemlist n i
      → s.parent i ≡ in_container p
      → Above s.parent c p
      → met n (s.parent i) c ≡ 1
  unfolding met Inside
  met_once zero i c p r e a = elim r [ ]
  met_once (suc n) i _ p r e here =
      let up = parent_Rooted s.parent s.itemlist n i p r e in
      rw e (simp (==_self p) (omega (arith, met_zero n p p up (not_in_itself n p up))))
  met_once (suc n) i c p r e (inside _ q f a) =
      let up = parent_Rooted s.parent s.itemlist n i p r e in
      rw e (
        simp (==_ne c p (λ g. not_in_itself n p up (q, f, subst (λ z. Above s.parent z q) g a)))
          (omega (arith, met_once n p c q up f a)))

  sum_of_plus : (f g : ℕ → ℕ) (xs : List ℕ) → sum_of (λ j. f j + g j) xs ≡ sum_of f xs + sum_of g xs
  unfolding sum_of
  sum_of_plus f g [] = omega arith
  sum_of_plus f g (x ∷ xs) = omega (arith, sum_of_plus f g xs)

  sum_of_zero : (f : ℕ → ℕ) (xs : List ℕ) → ((j : ℕ) → f j ≡ 0) → sum_of f xs ≡ 0
  unfolding sum_of
  sum_of_zero f [] h = refl
  sum_of_zero f (x ∷ xs) h = omega (arith, h x, sum_of_zero f xs h)

  -- Who is met on the way out of `x` is `x`'s container or met on the way out of items in between.
  met_all :
      (m x c : ℕ)
      → Rooted s.parent s.itemlist m x
      → sum_of (λ j. (if j == x then 1 else 0) + met m (s.parent x) j) (s.itemlist c)
        ≡ met m (s.parent x) c
  unfolding met
  met_all zero x c r = elim r [ ]
  met_all (suc m) x c r = elim (root_cases s.parent s.itemlist m x r) [
    | inl (l, e) ↦ omega (
      arith,
      sum_of_plus (λ j. if j == x then 1 else 0) (λ j. met (suc m) (s.parent x) j) (s.itemlist c),
      l c,
      held_outside (s.parent x) c e,
      met_outside (suc m) (s.parent x) c e,
      sum_of_zero (λ j. met (suc m) (s.parent x) j) (s.itemlist c)
          (λ j. met_outside (suc m) (s.parent x) j e),
    )
    | inr (l, (p, e, up)) ↦ rw e (
        omega (
          arith,
          sum_of_plus (λ j. if j == x then 1 else 0)
              (λ j. (if j == p then 1 else 0) + met m (s.parent p) j) (s.itemlist c),
          l c,
          ap (λ q. held_in q c) e,
          met_all m p c up,
          flipped c p,
        ))
  ]
    where
      flipped : (a b : ℕ) → ◌≡◌ {A = ℕ} (if a == b then 1 else 0) (if b == a then 1 else 0)
      flipped a b = ground arith

times-contains : (x : ℕ) (xs : List ℕ) → 0 < times x xs → contains x xs ≡ true
unfolding sum_of contains
times-contains x [] h = absurd (omega arith)
times-contains x (y ∷ xs) h = elim (Bool-cases (y == x)) [
  | inl e ↦ simp e refl
  | inr e ↦ simp e (times-contains x xs (rest (y == x) _ e h))
]
  where
    rest : (b : Bool) (t : ℕ) → b ≡ false → 0 < (if b then 1 else 0) + t → 0 < t
    rest b t e h = ground (arith, e, h)

times-absent : (x : ℕ) (xs : List ℕ) → times x xs ≡ 0 → contains x xs ≡ false
unfolding sum_of contains
times-absent x [] h = refl
times-absent x (y ∷ xs) h = elim (Bool-cases (y == x)) [
  | inl e ↦ absurd (some_time (y == x) _ e h)
  | inr e ↦ simp e (times-absent x xs (rest (y == x) _ e h))
]
  where
    some_time : (b : Bool) (t : ℕ) → b ≡ true → (if b then 1 else 0) + t ≢ 0
    some_time b t e h = ground (arith, e, h)

    rest : (b : Bool) (t : ℕ) → b ≡ false → (if b then 1 else 0) + t ≡ 0 → t ≡ 0
    rest b t e h = ground (arith, e, h)

module _ (k : Kinds) (s : Store) (n m c : ℕ) (sound : IsIntact k n s)
    (enough : under s n (λ i. 1) c ≤ m) where
  met-under : (x d : ℕ) → under s n (λ j. if j == x then 1 else 0) d ≡ met s n (s.parent x) d
  met-under x =
      under_unique s k n sound (λ j. if j == x then 1 else 0) (met s n (s.parent x))
        (λ d. met_all s n x d (sound.rooted x))

  -- The loops over a container end after they have seen each item that lies in it, directly or in
  -- other containers, once and nothing else, and the total weight that the container keeps is what
  -- these items weigh by themselves.
  pub visit-Inside :
      (xs : List ℕ) × (visit k s m (iterator k s c) ≡ some xs)
      × ((x : ℕ) → Inside s.parent c x → times x xs ≡ 1)
      × ((x : ℕ) → ¬ Inside s.parent c x → times x xs ≡ 0)
      × (s.total_weight c ≡ sum_of (item_weight k s) xs % word)
  unfolding Inside
  visit-Inside =
      let (xs, ends, sums) = visit_all k s n sound m c enough in
      (
        xs,
        ends,
        λ x h. sums _ ∙ met-under x c ∙ met_once s n x c h.0 (sound.rooted x) h.1 h.2,
        λ x h. sums _ ∙ met-under x c ∙ met_zero s n x c (sound.rooted x) h,
        total_weight-under s k n sound c ∙ ap (λ v. v % word) (sym (sums (item_weight k s))),
      )

  -- `isHoldingItem` tells whether the item lies in the container, directly or in other containers.
  pub is_holding_item-Inside :
      (x : ℕ)
      → (Inside s.parent c x → is_holding_item k s m c x ≡ some true)
        × (¬ Inside s.parent c x → is_holding_item k s m c x ≡ some false)
  unfolding is_holding_item
  is_holding_item-Inside x =
      let (xs, ends, once, never, w) = visit-Inside in
      (
        λ h. simp (ends, times-contains x xs (omega (arith, once x h))) refl,
        λ h. simp (ends, times-absent x xs (never x h)) refl,
      )

-- ===== src/Containers/Visits.antt =====
-- What `ContainerIterator` visits (src/container.cpp).
use infernum_data_pack.Base.{
  ℕ, zero, suc, ◌+◌, ◌≤◌, ◌≡◌, refl, sym, ap, ◌∙◌, Bool, true, false, not, ◌&&◌, List, [], ◌∷◌, All,
  some, arith, Bool-cases, inl, inr, subst, All-append,
}
use infernum_data_pack.Containers.{Kinds, Store, is_nil}
use infernum_data_pack.Containers.Iterator.{
  from_front, pop_front, iterator, queued, settle, advance, after, visit,
}
use infernum_data_pack.Containers.Sums.{sum_of, sum_of-append}
use infernum_data_pack.Containers.Intact.{IsIntact}
use infernum_data_pack.Containers.Under.{under, under_all, under_empty, under_nothing}

module _ (k : Kinds) (s : Store) (n : ℕ) (sound : IsIntact k n s) where
  -- Containers in the queue have items.
  HasItems : ℕ → Type 0
  HasItems c = is_nil (s.itemlist c) ≡ false

  -- Where the iterator stands: at its end, or before the end of the first list.
  IsLive : List ℕ → List ℕ → Type 0
  IsLive [] cur = cur ≡ []
  IsLive (o ∷ over) cur = (is_nil cur ≡ false) × All HasItems over

  -- The sum of `f` over all that the iterator still visits.
  ahead : (ℕ → ℕ) → List ℕ → List ℕ → ℕ
  ahead f over cur =
      sum_of (λ i. f i + under s n f i) cur + sum_of (under s n f) (pop_front k s over)

  nil_list : (xs : List ℕ) → is_nil xs ≡ true → xs ≡ []
  nil_list [] h = refl
  nil_list (x ∷ xs) h = absurd (ground (arith, h))

  under_unqueued :
      (f : ℕ → ℕ) (i : ℕ)
      → (k.is_container i && not (is_nil (s.itemlist i))) ≡ false
      → under s n f i ≡ 0
  under_unqueued f i h = elim (Bool-cases (k.is_container i)) [
    | inr e ↦ under_nothing s k n sound f n i e
    | inl e ↦ elim (Bool-cases (is_nil (s.itemlist i))) [
      | inl g ↦ under_empty s k n sound f n i (nil_list (s.itemlist i) g)
      | inr g ↦ absurd (ground (arith, simp (e, g) at h))
    ]
  ]

  queued_sum :
      (f : ℕ → ℕ) (i o : ℕ) (over : List ℕ)
      → sum_of (under s n f) (pop_front k s (queued k s i (o ∷ over)))
        ≡ under s n f i + sum_of (under s n f) over
  queued_sum f i o over = elim (Bool-cases (k.is_container i && not (is_nil (s.itemlist i)))) [
    | inl e ↦ simp e (sum_of-append (under s n f) over i)
    | inr e ↦ simp e (omega (arith, under_unqueued f i e))
  ]

  ahead-front :
      (f : ℕ → ℕ) (over : List ℕ)
      → ahead f (from_front k s over).over (from_front k s over).cur ≡ sum_of (under s n f) over
  unfolding ahead sum_of
  ahead-front f [] = refl
  ahead-front f (p ∷ over) = omega (arith, under_all s k n sound f p)

  ahead-settle :
      (f : ℕ → ℕ) (over rest : List ℕ)
      → ahead f (settle k s over rest).over (settle k s over rest).cur
        ≡ sum_of (λ i. f i + under s n f i) rest + sum_of (under s n f) (pop_front k s over)
  unfolding ahead sum_of
  ahead-settle f over [] = omega (arith, ahead-front f (pop_front k s over))
  ahead-settle f over (i ∷ rest) = refl

  ahead-advance :
      (f : ℕ → ℕ) (o i : ℕ) (over rest : List ℕ)
      → f i
          + ahead f (advance k s (o ∷ over) (i ∷ rest)).over (advance k s (o ∷ over) (i ∷ rest)).cur
        ≡ ahead f (o ∷ over) (i ∷ rest)
  unfolding ahead sum_of advance
  ahead-advance f o i over rest =
      omega (arith, ahead-settle f (queued k s i (o ∷ over)) rest, queued_sum f i o over)

  front-IsLive :
      (over : List ℕ)
      → All HasItems over
      → IsLive (from_front k s over).over (from_front k s over).cur
  unfolding IsLive HasItems
  front-IsLive [] h = refl
  front-IsLive (p ∷ over) h = h

  nonempty : (a b : Bool) → (a && not b) ≡ true → b ≡ false
  nonempty a b h = ground (arith, h)

  queued-HasItems :
      (o i : ℕ) (over : List ℕ)
      → All HasItems over
      → All HasItems (pop_front k s (queued k s i (o ∷ over)))
  unfolding HasItems
  queued-HasItems o i over h = elim (Bool-cases (k.is_container i && not (is_nil (s.itemlist i)))) [
    | inl e ↦ simp e (All-append HasItems over (i ∷ []) h (nonempty _ _ e, tt))
    | inr e ↦ simp e h
  ]

  settle-IsLive :
      (o : ℕ) (over rest : List ℕ)
      → All HasItems over
      → IsLive (settle k s (o ∷ over) rest).over (settle k s (o ∷ over) rest).cur
  unfolding IsLive
  settle-IsLive o over [] h = front-IsLive over h
  settle-IsLive o over (i ∷ rest) h = (refl, h)

  -- The queue keeps its first container.
  queued_first :
      (o i : ℕ) (over : List ℕ)
      → queued k s i (o ∷ over) ≡ o ∷ pop_front k s (queued k s i (o ∷ over))
  queued_first o i over = elim (Bool-cases (k.is_container i && not (is_nil (s.itemlist i)))) [
    | inl e ↦ simp e refl
    | inr e ↦ simp e refl
  ]

  advance-IsLive :
      (o i : ℕ) (over rest : List ℕ)
      → All HasItems over
      → IsLive (advance k s (o ∷ over) (i ∷ rest)).over (advance k s (o ∷ over) (i ∷ rest)).cur
  unfolding advance
  advance-IsLive o i over rest h =
      subst (λ q. IsLive (settle k s q rest).over (settle k s q rest).cur)
        (sym (queued_first o i over)) (settle-IsLive o _ rest (queued-HasItems o i over h))

  -- The loop ended after it had seen `xs`.
  record Visited (m : ℕ) (over cur : List ℕ) : Type 0 where
    seen : List ℕ
    ends : visit k s m (record { over = over; cur = cur }) ≡ some seen
    sums : (f : ℕ → ℕ) → sum_of f seen ≡ ahead f over cur

  ended : (m : ℕ) (cur : List ℕ) → cur ≡ [] → Visited m [] cur
  unfolding visit ahead sum_of
  ended zero cur h = record { seen = []; ends = refl; sums = λ f. rw h (omega arith) }
  ended (suc m) cur h = record { seen = []; ends = refl; sums = λ f. rw h (omega arith) }

  one_more :
      (m o i : ℕ) (over rest : List ℕ)
      → Visited m (advance k s (o ∷ over) (i ∷ rest)).over (advance k s (o ∷ over) (i ∷ rest)).cur
      → Visited (suc m) (o ∷ over) (i ∷ rest)
  unfolding visit sum_of
  one_more m o i over rest v = record {
    seen = i ∷ v.seen;
    ends = ap (after k s (i ∷ rest)) v.ends;
    sums = λ f. omega (arith, v.sums f, ahead-advance f o i over rest);
  }

  -- Enough rounds are as many as there are items ahead.
  visit_ends :
      (m : ℕ) (over cur : List ℕ)
      → IsLive over cur
      → ahead (λ i. 1) over cur ≤ m
      → Visited m over cur
  unfolding IsLive
  visit_ends m [] cur live h = ended m cur live
  visit_ends m (o ∷ over) [] live h = absurd (ground (arith, live.0))
  visit_ends zero (o ∷ over) (i ∷ rest) live h =
      absurd (omega (arith, h, ahead-advance (λ i. 1) o i over rest))
  visit_ends (suc m) (o ∷ over) (i ∷ rest) live h = one_more m o i over rest (
      visit_ends m _ _ (advance-IsLive o i over rest live.1)
        (omega (arith, h, ahead-advance (λ i. 1) o i over rest)))

  iterator-IsLive : (c : ℕ) → IsLive (iterator k s c).over (iterator k s c).cur
  unfolding iterator IsLive
  iterator-IsLive c = elim (Bool-cases (is_nil (s.itemlist c))) [
    | inl e ↦ simp e refl
    | inr e ↦ simp e (refl, tt)
  ]

  ahead-iterator :
      (f : ℕ → ℕ) (c : ℕ) → ahead f (iterator k s c).over (iterator k s c).cur ≡ under s n f c
  unfolding iterator ahead sum_of
  ahead-iterator f c = elim (Bool-cases (is_nil (s.itemlist c))) [
    | inl e ↦ simp e (omega (arith, under_empty s k n sound f n c (nil_list (s.itemlist c) e)))
    | inr e ↦ simp e (omega (arith, under_all s k n sound f c))
  ]

  -- The loop over container `c` ends after it has seen all that lies in `c`.
  pub visit_all :
      (m c : ℕ)
      → under s n (λ i. 1) c ≤ m
      → (xs : List ℕ) × (visit k s m (iterator k s c) ≡ some xs)
        × ((f : ℕ → ℕ) → sum_of f xs ≡ under s n f c)
  visit_all m c h =
      let v = visit_ends m _ _ (iterator-IsLive c) (omega (arith, h, ahead-iterator (λ i. 1) c)) in
      (v.seen, v.ends, λ f. v.sums f ∙ ahead-iterator f c)

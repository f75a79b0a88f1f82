-- ===== src/Containers/Answers.antt =====
-- `Container::queryAdd` answers (src/container.cpp).
use infernum_data_pack.Base.{
  ℕ, zero, suc, ◌≡◌, refl, ap, Bool, true, false, not, ◌==◌, ◌&&◌, Option, none, some,
  if◌then◌else◌, arith, Bool-cases, inl, inr,
}
use infernum_data_pack.Containers.{
  Parent, nowhere, in_container, on_tile, carried_by, Kinds, Store, Thing, item, creature,
}
use infernum_data_pack.Containers.Methods.{Index}
use infernum_data_pack.Containers.Query.{
  ReturnValue, no_error, not_possible, cannot_pickup, this_is_impossible, container_not_enough_room,
  not_moveable, Cylinder, container, player, flag_no_limit, flag_child_is_owner, has_bit_set,
  is_nowhere, query_parents, climb, query_top, after_parents, query_add_item, query_add,
}
use infernum_data_pack.Containers.Nesting.{Rooted, is_inside, root_cases}

abbrev is_some : Option Cylinder → Bool
is_some none = false
is_some (some p) = true

module _ (k : Kinds) (s : Store) where
  outside_answers :
      (n : ℕ) (limited : Bool) (x : ℕ) (q : Parent)
      → is_inside q ≡ false
      → (r : ReturnValue) × (query_parents k (suc n) limited x q s ≡ some r)
  unfolding query_parents
  outside_answers n limited x nowhere e = (no_error, refl)
  outside_answers n limited x (in_container p) e = absurd (ground (arith, e))
  outside_answers n limited x on_tile e = (no_error, refl)
  outside_answers n limited x (carried_by p) e = (no_error, refl)

  parents_answer :
      (n : ℕ) (limited : Bool) (x c : ℕ)
      → Rooted s.parent s.itemlist n c
      → (r : ReturnValue) × (query_parents k n limited x (s.parent c) s ≡ some r)
  unfolding query_parents
  parents_answer zero limited x c r = elim r [ ]
  parents_answer (suc n) limited x c r = elim (root_cases s.parent s.itemlist n c r) [
    | inl (l, e) ↦ outside_answers n limited x (s.parent c) e
    | inr (l, (p, e, up)) ↦ elim (Bool-cases (p == x)) [
      | inl f ↦ (this_is_impossible, simp (e, f) refl)
      | inr f ↦ elim (Bool-cases (limited && k.is_inbox p)) [
        | inl g ↦ (container_not_enough_room, simp (e, f, g) refl)
        | inr g ↦ (let (v, h) = parents_answer n limited x p up in (v, simp (e, f, g) h))
      ]
    ]
  ]

  top_outside :
      (n : ℕ) (prev : Cylinder) (q : Parent)
      → is_inside q ≡ false
      → (r : Cylinder) × (climb k (suc n) prev q s ≡ some r)
  unfolding climb
  top_outside n prev nowhere e = (prev, refl)
  top_outside n prev (in_container p) e = absurd (ground (arith, e))
  top_outside n prev on_tile e = (prev, refl)
  top_outside n prev (carried_by p) e = (_, refl)

  top_answers :
      (n c : ℕ) (prev : Cylinder)
      → Rooted s.parent s.itemlist n c
      → (r : Cylinder) × (climb k n prev (s.parent c) s ≡ some r)
  unfolding climb
  top_answers zero c prev r = elim r [ ]
  top_answers (suc n) c prev r = elim (root_cases s.parent s.itemlist n c r) [
    | inl (l, e) ↦ top_outside n prev (s.parent c) e
    | inr (l, (p, e, up)) ↦ elim (Bool-cases (is_nowhere (s.parent p))) [
      | inl f ↦ (prev, simp (e, f) refl)
      | inr f ↦ (let (v, h) = top_answers n p (container p) up in (v, simp (e, f) h))
    ]
  ]

  module _ (ask : ℕ → ℕ → ℕ → ℕ → ReturnValue) (n c : ℕ) (i : Index)
      (r : Rooted s.parent s.itemlist n c) where
    Answered : Option ReturnValue → Type 0
    Answered o = (v : ReturnValue) × (o ≡ some v)

    if-Answered :
        (b : Bool) (v : ReturnValue) (o : Option ReturnValue)
        → Answered o
        → Answered (if b then some v else o)
    unfolding Answered
    if-Answered true v o h = (v, refl)
    if-Answered false v o h = h

    query_top-Answered :
        (x count flags : ℕ) (o : Option Cylinder)
        → (p : Cylinder) × (o ≡ some p)
        → Answered (query_top k ask n c x count flags o)
    unfolding query_top Answered
    query_top-Answered x count flags none h = absurd (ground (arith, ap is_some h.1))
    query_top-Answered x count flags (some (container p)) h = (no_error, refl)
    query_top-Answered x count flags (some (player p)) h = (_, refl)

    after_parents-Answered :
        (x count flags : ℕ) (o : Option ReturnValue)
        → Answered o
        → Answered (after_parents k ask n c i x count flags s o)
    unfolding after_parents Answered
    after_parents-Answered x count flags none h = h
    after_parents-Answered x count flags (some no_error) h =
        if-Answered _ _ _ (query_top-Answered x count flags _ (top_answers n c (container c) r))
    after_parents-Answered x count flags (some not_possible) h = h
    after_parents-Answered x count flags (some cannot_pickup) h = h
    after_parents-Answered x count flags (some this_is_impossible) h = h
    after_parents-Answered x count flags (some container_not_enough_room) h = h
    after_parents-Answered x count flags (some not_moveable) h = h

    query_add_item-Answered :
        (thing : Thing) (count flags : ℕ)
        → Answered (query_add_item k ask n c i thing count flags s)
    unfolding query_add_item Answered
    query_add_item-Answered creature count flags = (not_possible, refl)
    query_add_item-Answered (item x) count flags =
        if-Answered (not (k.pickupable (s.id x))) cannot_pickup _ (
          if-Answered (x == c) this_is_impossible _ (
            after_parents-Answered x count flags _
              (parents_answer n (not (has_bit_set flag_no_limit flags)) x c r)))

    -- `queryAdd` answers whatever is asked, when the containers around the container are fewer than the
    -- fuel: its loops over the parents, and those of `getTopParent`, end.
    pub query_add_answers :
        (thing : Thing) (count flags : ℕ)
        → (v : ReturnValue) × (query_add k ask n c i thing count flags s ≡ some v)
    unfolding query_add Answered
    query_add_answers thing count flags =
        if-Answered (has_bit_set flag_child_is_owner flags) no_error _ (
          if-Answered (not (k.unlocked c)) not_possible _
            (query_add_item-Answered thing count flags))

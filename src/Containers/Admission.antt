-- ===== src/Containers/Admission.antt =====
-- What `Container::queryAdd` lets in (src/container.cpp).
use infernum_data_pack.Base.{
  ℕ, zero, suc, ◌<◌, ◌≡◌, ◌≢◌, refl, sym, ap, Bool, true, false, ◌==◌, ◌&&◌, Option, none, some,
  leb, length, arith, Bool-cases, inl, inr,
}
use infernum_data_pack.Containers.{Kinds, Store, item}
use infernum_data_pack.Containers.Methods.{Index}
use infernum_data_pack.Containers.Query.{
  ReturnValue, no_error, not_possible, cannot_pickup, this_is_impossible, container_not_enough_room,
  not_moveable, flag_no_limit, flag_child_is_owner, has_bit_set, is_wherever, query_parents,
  after_parents, query_add_item, query_add,
}
use infernum_data_pack.Containers.Nesting.{Above, here, inside}

abbrev is_no_error : ReturnValue → Bool
is_no_error no_error = true
is_no_error _ = false

abbrev says_no_error : Option ReturnValue → Bool
says_no_error none = false
says_no_error (some r) = is_no_error r

refused : (r : ReturnValue) → is_no_error r ≡ false → some r ≢ some no_error
refused r h e = ground (arith, h, ap says_no_error e)

unanswered : none ≢ some no_error
unanswered e = ground (arith, ap says_no_error e)

module _ (k : Kinds) (s : Store) where
  -- The loop over the parents of `c` says no error only when none of them is the thing.
  query_parents_apart :
      (x n : ℕ) (limited : Bool) (c : ℕ)
      → c ≢ x
      → query_parents k n limited x (s.parent c) s ≡ some no_error
      → ¬ Above s.parent x c
  unfolding query_parents
  query_parents_apart x n limited c h e here = h refl
  query_parents_apart x zero limited c h e (inside _ p f a) = absurd (unanswered e)
  query_parents_apart x (suc n) limited c h e (inside _ p f a) = elim (Bool-cases (p == x)) [
    | inl g ↦ absurd (refused this_is_impossible refl (simp (f, g) at e))
    | inr g ↦ elim (Bool-cases (limited && k.is_inbox p)) [
      | inl b ↦ absurd (refused container_not_enough_room refl (simp (f, g, b) at e))
      | inr b ↦
          query_parents_apart x n limited p (λ u. ground (arith, g, u)) (simp (f, g, b) at e) a
    ]
  ]

  -- What may be added to container `c`: it can be picked up and `c` is not inside it, and where limits
  -- count and no slot is named, `c` has room.
  pub record Admits (c : ℕ) (i : Index) (x flags : ℕ) : Type 0 where
    pub is_unlocked : k.unlocked c ≡ true
    pub may_pick_up : k.pickupable (s.id x) ≡ true
    pub apart : ¬ Above s.parent x c
    pub room :
        has_bit_set flag_no_limit flags ≡ false
        → is_wherever i ≡ true
        → length (s.itemlist c) < k.capacity c

  module _ (ask : ℕ → ℕ → ℕ → ℕ → ReturnValue) (n c : ℕ) (i : Index) (x count flags : ℕ) where
    after_parents-room :
        (r : Option ReturnValue)
        → after_parents k ask n c i x count flags s r ≡ some no_error
        → (r ≡ some no_error)
          × (has_bit_set flag_no_limit flags ≡ false
              → is_wherever i ≡ true
              → length (s.itemlist c) < k.capacity c)
    unfolding after_parents
    after_parents-room none e = absurd (unanswered e)
    after_parents-room (some no_error) e = (
      refl,
      λ a b. elim (Bool-cases (leb (k.capacity c) (length (s.itemlist c)))) [
        | inl f ↦ absurd (refused container_not_enough_room refl (simp (a, b, f) at e))
        | inr f ↦ ground (arith, f)
      ],
    )
    after_parents-room (some not_possible) e = absurd (refused not_possible refl e)
    after_parents-room (some cannot_pickup) e = absurd (refused cannot_pickup refl e)
    after_parents-room (some this_is_impossible) e = absurd (refused this_is_impossible refl e)
    after_parents-room (some container_not_enough_room) e =
        absurd (refused container_not_enough_room refl e)
    after_parents-room (some not_moveable) e = absurd (refused not_moveable refl e)

    -- When a container that is not asked by its child says no error, then it is unlocked, the item
    -- can be picked up, and the container is not inside the item; and it has room when no slot is named
    -- (`INDEX_WHEREEVER`) and `FLAG_NOLIMIT` is not set.
    pub query_add-Admits :
        has_bit_set flag_child_is_owner flags ≡ false
        → query_add k ask n c i (item x) count flags s ≡ some no_error
        → Admits c i x flags
    unfolding query_add query_add_item
    query_add-Admits h e = elim (Bool-cases (k.unlocked c)) [
      | inr a ↦ absurd (refused not_possible refl (simp (h, a) at e))
      | inl a ↦ elim (Bool-cases (k.pickupable (s.id x))) [
        | inr b ↦ absurd (refused cannot_pickup refl (simp (h, a, b) at e))
        | inl b ↦ elim (Bool-cases (x == c)) [
          | inl f ↦ absurd (refused this_is_impossible refl (simp (h, a, b, f) at e))
          | inr f ↦
              (let (parents, room) = after_parents-room _ (simp (h, a, b, f) at e) in
                record {
                  is_unlocked = a;
                  may_pick_up = b;
                  apart = query_parents_apart x n _ c (λ u. ground (arith, f, sym u)) parents;
                  room = room;
                })
        ]
      ]
    ]

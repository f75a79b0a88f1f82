-- ===== src/Containers/Reachable.antt =====
-- The states that the methods of `Container` lead to (src/container.cpp).
use infernum_data_pack.Base.{
  ℕ, ◌+◌, ◌≤◌, ◌≡◌, ◌≢◌, refl, sym, ap, subst, ◌∙◌, true, false, [], Option, none, some, arith,
}
use infernum_data_pack.Containers.{Parent, in_container, Kinds, Store, Thing, item}
use infernum_data_pack.Containers.Methods.{
  Index, internal_add_thing, add_thing, add_item_back, update_thing, remove_thing, replace_thing,
}
use infernum_data_pack.Containers.Query.{
  ReturnValue, no_error, flag_child_is_owner, has_bit_set, query_add,
}
use infernum_data_pack.Containers.Sums.{sum_of}
use infernum_data_pack.Containers.Nesting.{is_inside, Above, here, inside, outside}
use infernum_data_pack.Containers.Balance.{held_outside}
use infernum_data_pack.Containers.Intact.{IsIntact, IsFree, Leaves}
use infernum_data_pack.Containers.Adding.{
  add_thing-Leaves, add_item_back-Leaves, internal_add_thing-Leaves,
}
use infernum_data_pack.Containers.Removing.{remove_thing-Leaves, update_thing-Leaves}
use infernum_data_pack.Containers.Replacing.{replace_thing-Leaves}
use infernum_data_pack.Containers.Admission.{query_add-Admits}

-- An item that was just created: it lies nowhere and nothing lies in it.
pub record IsNew (parent : ℕ → Parent) (x : ℕ) : Type 0 where
  pub lies_nowhere : is_inside (parent x) ≡ false
  pub holds_nothing : (i : ℕ) → parent i ≢ in_container x

new_apart :
    (parent : ℕ → Parent) (x : ℕ)
    → ((i : ℕ) → parent i ≢ in_container x)
    → (c : ℕ) → c ≢ x
    → ¬ Above parent x c
new_apart parent x h c e here = e refl
new_apart parent x h c e (inside _ p f a) =
    new_apart parent x h p (λ g. h c (f ∙ ap in_container g)) a

-- What the methods lead to. Before `addThing` adds an item, which lies nowhere, `queryAdd` is asked and says
-- no error, not asked by a child of the container (`FLAG_CHILDISOWNER`). An item that
-- `internalAddThing` or `addItemBack` puts in, as the loaders do, or that takes the place of another was just
-- created and is not the container.
pub data Reachable (k : Kinds) (ask : ℕ → ℕ → ℕ → ℕ → ReturnValue) : ℕ → Store → Type 0 where
  empty :
      (s : Store)
      → ((c : ℕ) → s.itemlist c ≡ [])
      → ((c : ℕ) → s.total_weight c ≡ 0)
      → ((i : ℕ) → is_inside (s.parent i) ≡ false)
      → Reachable k ask 1 s
  added :
      (n m c : ℕ) (i : Index) (x count flags : ℕ) (s t : Store)
      → Reachable k ask n s
      → n ≤ m
      → k.is_container c ≡ true
      → is_inside (s.parent x) ≡ false
      → has_bit_set flag_child_is_owner flags ≡ false
      → query_add k ask m c i (item x) count flags s ≡ some no_error
      → add_thing k m c i (item x) s ≡ some t
      → Reachable k ask (n + n) t
  loaded :
      (n m c x : ℕ) (s t : Store)
      → Reachable k ask n s
      → n ≤ m
      → k.is_container c ≡ true
      → IsNew s.parent x
      → c ≢ x
      → add_item_back k m c x s ≡ some t
      → Reachable k ask (n + n) t
  put_in :
      (n m c x : ℕ) (s t : Store)
      → Reachable k ask n s
      → n ≤ m
      → k.is_container c ≡ true
      → IsNew s.parent x
      → c ≢ x
      → internal_add_thing k m c (item x) s ≡ some t
      → Reachable k ask (n + n) t
  updated :
      (n m c : ℕ) (thing : Thing) (new amount : ℕ) (s t : Store)
      → Reachable k ask n s
      → n ≤ m
      → update_thing k m c thing new amount s ≡ some t
      → Reachable k ask (n + n) t
  replaced :
      (n m c i x : ℕ) (s t : Store)
      → Reachable k ask n s
      → n ≤ m
      → k.is_container c ≡ true
      → IsNew s.parent x
      → c ≢ x
      → replace_thing k m c i (item x) s ≡ some t
      → Reachable k ask (n + n) t
  removed :
      (n m c : ℕ) (thing : Thing) (amount : ℕ) (s t : Store)
      → Reachable k ask n s
      → n ≤ m
      → remove_thing k m c thing amount s ≡ some t
      → Reachable k ask (n + n) t

store_or : Store → Option Store → Store
store_or s none = s
store_or s (some t) = t

pub Leaves-store :
    (k : Kinds) (n : ℕ) (o : Option Store) (t : Store) → Leaves k n o → o ≡ some t → IsIntact k n t
unfolding store_or
Leaves-store k n o t l e = subst (IsIntact k n) (ap (store_or t) (sym l.returned ∙ e)) l.intact

module _ (k : Kinds) (ask : ℕ → ℕ → ℕ → ℕ → ReturnValue) where
  empty-IsIntact :
      (s : Store)
      → ((c : ℕ) → s.itemlist c ≡ [])
      → ((c : ℕ) → s.total_weight c ≡ 0)
      → ((i : ℕ) → is_inside (s.parent i) ≡ false)
      → IsIntact k 1 s
  unfolding sum_of
  empty-IsIntact s lists totals out = record {
    rooted =
        λ i. outside 0 i (λ c. rw (lists c) (sym (held_outside (s.parent i) c (out i)))) (out i);
    typed = λ i p e. absurd (ground (arith, out i, ap is_inside e));
    weighs = λ c. rw (lists c, totals c) refl;
  }

  new-IsFree : (s : Store) (c x : ℕ) → IsNew s.parent x → c ≢ x → IsFree s.parent c (item x)
  unfolding IsFree
  new-IsFree s c x new e = (new.lies_nowhere, new_apart s.parent x new.holds_nothing c e)

  asked-IsFree :
      (m c : ℕ) (i : Index) (x count flags : ℕ) (s : Store)
      → is_inside (s.parent x) ≡ false
      → has_bit_set flag_child_is_owner flags ≡ false
      → query_add k ask m c i (item x) count flags s ≡ some no_error
      → IsFree s.parent c (item x)
  unfolding IsFree
  asked-IsFree m c i x count flags s out f q =
      (out, (query_add-Admits k s ask m c i x count flags f q).apart)

  -- From empty containers on, after any sequence of `addThing` of items that lie nowhere and for which
  -- `queryAdd`, not asked by a child, said no error; of `internalAddThing`, `addItemBack` and `replaceThing`
  -- with items just created, other than the container; and of `updateThing` and `removeThing`: every item
  -- stands in the list of its parent alone, no container lies in itself, and each container's total is the
  -- weight of the items in its list.
  pub Reachable-IsIntact : (n : ℕ) (s : Store) → Reachable k ask n s → IsIntact k n s
  Reachable-IsIntact _ _ (empty s lists totals out) = empty-IsIntact s lists totals out
  Reachable-IsIntact _ _ (added n m c i x count flags s t r h holds out f q e) =
      Leaves-store k (n + n) _ t
        (add_thing-Leaves k n m c s (Reachable-IsIntact n s r) holds h i (item x)
          (asked-IsFree m c i x count flags s out f q))
        e
  Reachable-IsIntact _ _ (loaded n m c x s t r h holds new d e) =
      Leaves-store k (n + n) _ t
        (add_item_back-Leaves k n m c s (Reachable-IsIntact n s r) holds h x
          (new-IsFree s c x new d))
        e
  Reachable-IsIntact _ _ (put_in n m c x s t r h holds new d e) =
      Leaves-store k (n + n) _ t
        (internal_add_thing-Leaves k n m c s (Reachable-IsIntact n s r) holds h (item x)
          (new-IsFree s c x new d))
        e
  Reachable-IsIntact _ _ (updated n m c thing new amount s t r h e) =
      Leaves-store k (n + n) _ t
        (update_thing-Leaves k n m c s (Reachable-IsIntact n s r) h thing new amount) e
  Reachable-IsIntact _ _ (replaced n m c i x s t r h holds new d e) =
      Leaves-store k (n + n) _ t
        (replace_thing-Leaves k n m c s (Reachable-IsIntact n s r) holds h i (item x)
          (new-IsFree s c x new d))
        e
  Reachable-IsIntact _ _ (removed n m c thing amount s t r h e) =
      Leaves-store k (n + n) _ t
        (remove_thing-Leaves k n m c s (Reachable-IsIntact n s r) h thing amount) e

-- ===== src/WildcardTree/Trim.antt =====
-- No bare nodes are left in the tree of src/wildcardtree.cpp.
use infernum_data_pack.Base.{
  ℕ, ◌≡◌, refl, Bool, true, false, List, [], ◌∷◌, Option, none, some, arith, ◌==◌, Bool-cases, inl,
  inr,
}
use infernum_data_pack.WildcardTree.{
  WildcardTreeNode, Children, tree, child, no_children, find_child, get_child, mark, put_child,
  erase_child, is_bare, removed, remove, rebuilt, with_child, node_or, is_last, insert,
}
use infernum_data_pack.WildcardTree.Names.{Command, inserts, removes, run}

unfoldable mutual
  -- Every node below has a child or ends a name.
  pub IsTrim : WildcardTreeNode → Type 0
  IsTrim (tree b cs) = AreTrim cs

  pub AreTrim : Children → Type 0
  AreTrim no_children = Unit {0}
  AreTrim (child c t rest) = (is_bare t ≡ false) × IsTrim t × AreTrim rest

AreTrim-put_child :
    (ch : ℕ) (t : WildcardTreeNode) (cs : Children)
    → is_bare t ≡ false
    → IsTrim t
    → AreTrim cs
    → AreTrim (put_child ch t cs)
unfolding put_child AreTrim
AreTrim-put_child ch t no_children l h k = (l, h, tt)
AreTrim-put_child ch t (child c u rest) l h k = elim (Bool-cases (c == ch)) [
  | inl e ↦ simp e (l, h, k.2)
  | inr e ↦ simp e (k.0, k.1, AreTrim-put_child ch t rest l h k.2)
]

AreTrim-erase_child : (ch : ℕ) (cs : Children) → AreTrim cs → AreTrim (erase_child ch cs)
unfolding erase_child AreTrim
AreTrim-erase_child ch no_children k = tt
AreTrim-erase_child ch (child c u rest) k = elim (Bool-cases (c == ch)) [
  | inl e ↦ simp e k.2
  | inr e ↦ simp e (k.0, k.1, AreTrim-erase_child ch rest k.2)
]

-- The child that was found, if any.
unfoldable pub FoundTrim : Option WildcardTreeNode → Type 0
FoundTrim none = Unit {0}
FoundTrim (some u) = (is_bare u ≡ false) × IsTrim u

pub find_child-FoundTrim : (ch : ℕ) (cs : Children) → AreTrim cs → FoundTrim (find_child ch cs)
unfolding find_child AreTrim FoundTrim
find_child-FoundTrim ch no_children h = tt
find_child-FoundTrim ch (child c t rest) h = elim (Bool-cases (c == ch)) [
  | inl f ↦ simp f (h.0, h.1)
  | inr f ↦ simp f (find_child-FoundTrim ch rest h.2)
]

mark-IsTrim : (b : Bool) (o : Option WildcardTreeNode) → FoundTrim o → IsTrim (mark b o)
unfolding IsTrim FoundTrim
mark-IsTrim b none h = tt
mark-IsTrim b (some (tree c cs)) h = h.1

live_mark : (o : Option WildcardTreeNode) → is_bare (mark true o) ≡ false
live_mark none = refl
live_mark (some (tree c no_children)) = ground arith
live_mark (some (tree c (child d t rest))) = refl

live_put :
    (b : Bool) (ch : ℕ) (t : WildcardTreeNode) (cs : Children)
    → is_bare (tree b (put_child ch t cs)) ≡ false
unfolding put_child
live_put b ch t no_children = refl
live_put b ch t (child c u rest) = elim (Bool-cases (c == ch)) [
  | inl e ↦ simp e refl
  | inr e ↦ simp e refl
]

live_insert :
    (str : List ℕ) (o : Option WildcardTreeNode)
    → is_bare (insert str (mark (is_last str) o)) ≡ false
unfolding insert
live_insert [] o = live_mark o
live_insert (ch ∷ str) o = live_put _ ch _ _

insert-IsTrim : (str : List ℕ) (t : WildcardTreeNode) → IsTrim t → IsTrim (insert str t)
unfolding insert IsTrim get_child
insert-IsTrim [] t h = h
insert-IsTrim (ch ∷ str) (tree b cs) h =
    let o = find_child ch cs in
    AreTrim-put_child ch (insert str (mark (is_last str) o)) cs (live_insert str o)
      (insert-IsTrim str (mark (is_last str) o)
        (mark-IsTrim (is_last str) o (find_child-FoundTrim ch cs h)))
      h

with_child-IsTrim :
    (f : WildcardTreeNode → Option WildcardTreeNode) (t : WildcardTreeNode)
    → IsTrim t
    → (o : Option WildcardTreeNode) → FoundTrim o
    → ((u : WildcardTreeNode) → IsTrim u → IsTrim (node_or t (f u)))
    → IsTrim (node_or t (with_child f o))
unfolding FoundTrim
with_child-IsTrim f t h none k g = h
with_child-IsTrim f t h (some u) k g = g u k.1

rebuilt-IsTrim :
    (ch : ℕ) (b : Bool) (cs : Children) (u : WildcardTreeNode)
    → AreTrim cs
    → (o : Option WildcardTreeNode) → IsTrim (node_or u o)
    → IsTrim (node_or (tree b cs) (rebuilt ch (tree b cs) o))
unfolding IsTrim
rebuilt-IsTrim ch b cs u h none g = h
rebuilt-IsTrim ch b cs u h (some v) g = elim (Bool-cases (is_bare v)) [
  | inl e ↦ simp e (AreTrim-erase_child ch cs h)
  | inr e ↦ simp e (AreTrim-put_child ch v cs e g h)
]

removed-IsTrim :
    (name : List ℕ) (t : WildcardTreeNode) → IsTrim t → IsTrim (node_or t (removed name t))
unfolding removed IsTrim get_child
removed-IsTrim [] (tree b cs) h = h
removed-IsTrim (ch ∷ name) (tree b cs) h =
    with_child-IsTrim (λ u. rebuilt ch (tree b cs) (removed name u)) (tree b cs) h
      (find_child ch cs) (find_child-FoundTrim ch cs h)
      (λ u k. rebuilt-IsTrim ch b cs u h (removed name u) (removed-IsTrim name u k))

pub run-IsTrim : (commands : List Command) → IsTrim (run commands)
unfolding run IsTrim remove
run-IsTrim [] = tt
run-IsTrim (inserts ch str ∷ commands) =
    insert-IsTrim (ch ∷ str) (run commands) (run-IsTrim commands)
run-IsTrim (removes str ∷ commands) = removed-IsTrim str (run commands) (run-IsTrim commands)

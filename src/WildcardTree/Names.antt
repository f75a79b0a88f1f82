-- ===== src/WildcardTree/Names.antt =====
-- The names in the tree after any history of `insert` and `remove` (src/wildcardtree.cpp).
use infernum_data_pack.Base.{
  ℕ, ◌≡◌, refl, ap, ◌∙◌, Bool, false, not, List, [], ◌∷◌, Option, none, some, arith, ◌==◌, ◌||◌,
  ◌&&◌, Bool-cases, inl, inr,
}
use infernum_data_pack.WildcardTree.{
  WildcardTreeNode, Children, tree, child, no_children, find_child, get_child, mark, put_child,
  erase_child, is_bare, removed, remove, rebuilt, with_child, node_or, is_last, insert, walk,
}
use infernum_data_pack.WildcardTree.Insert.{has, is_same, has-insert, find_child-put_child}
use infernum_data_pack.WildcardTree.Remove.{
  IsMap, AreMap, has-removed, child-IsMap, find_child-erase_child,
}

-- Removing a name takes exactly that name out of a tree in which no node has two children for one
-- character.
pub has-remove :
    (name str : List ℕ) (t : WildcardTreeNode)
    → IsMap t
    → has str (remove name t) ≡ (has str t && not (is_same str name))
unfolding remove
has-remove name str t h = has-removed name t h str

none_in : (c : ℕ) → find_child c no_children ≡ none
unfolding find_child
none_in c = refl

AreMap-put_child :
    (ch : ℕ) (t : WildcardTreeNode) (cs : Children)
    → IsMap t
    → AreMap cs
    → AreMap (put_child ch t cs)
unfolding put_child AreMap
AreMap-put_child ch t no_children h k = (none_in ch, h, tt)
AreMap-put_child ch t (child c u rest) h k = elim (Bool-cases (c == ch)) [
  | inl e ↦ simp e (k.0, h, k.2)
  | inr e ↦ simp e (
    find_child-put_child c ch t rest ∙ simp (flipped c ch e) (k.0),
    k.1,
    AreMap-put_child ch t rest h k.2,
  )
]
  where
    flipped : (a b : ℕ) → (a == b) ≡ false → (b == a) ≡ false
    flipped a b e = ground (arith, e)

AreMap-erase_child : (ch : ℕ) (cs : Children) → AreMap cs → AreMap (erase_child ch cs)
unfolding erase_child AreMap
AreMap-erase_child ch no_children k = tt
AreMap-erase_child ch (child c u rest) k = elim (Bool-cases (c == ch)) [
  | inl e ↦ simp e k.2
  | inr e ↦ simp e (
    find_child-erase_child ch c rest k.2 ∙ simp (flipped c ch e) (k.0),
    k.1,
    AreMap-erase_child ch rest k.2,
  )
]
  where
    flipped : (a b : ℕ) → (a == b) ≡ false → (b == a) ≡ false
    flipped a b e = ground (arith, e)

mark-IsMap :
    (b : Bool) (o : Option WildcardTreeNode)
    → ((u : WildcardTreeNode) → o ≡ some u → IsMap u)
    → IsMap (mark b o)
unfolding IsMap
mark-IsMap b none h = tt
mark-IsMap b (some (tree c cs)) h = h (tree c cs) refl

insert-IsMap : (str : List ℕ) (t : WildcardTreeNode) → IsMap t → IsMap (insert str t)
unfolding insert IsMap get_child
insert-IsMap [] t h = h
insert-IsMap (ch ∷ str) (tree b cs) h =
    AreMap-put_child ch (insert str (mark (is_last str) (find_child ch cs))) cs
      (insert-IsMap str (mark (is_last str) (find_child ch cs))
        (mark-IsMap (is_last str) (find_child ch cs) (λ u e. child-IsMap ch cs u h e)))
      h

with_child-IsMap :
    (f : WildcardTreeNode → Option WildcardTreeNode) (t : WildcardTreeNode)
    → IsMap t
    → (o : Option WildcardTreeNode)
    → ((u : WildcardTreeNode) → o ≡ some u → IsMap (node_or t (f u)))
    → IsMap (node_or t (with_child f o))
with_child-IsMap f t h none g = h
with_child-IsMap f t h (some u) g = g u refl

rebuilt-IsMap :
    (ch : ℕ) (b : Bool) (cs : Children) (u : WildcardTreeNode)
    → AreMap cs
    → (o : Option WildcardTreeNode) → IsMap (node_or u o)
    → IsMap (node_or (tree b cs) (rebuilt ch (tree b cs) o))
unfolding IsMap
rebuilt-IsMap ch b cs u h none g = h
rebuilt-IsMap ch b cs u h (some v) g = elim (Bool-cases (is_bare v)) [
  | inl e ↦ simp e (AreMap-erase_child ch cs h)
  | inr e ↦ simp e (AreMap-put_child ch v cs g h)
]

removed-IsMap :
    (name : List ℕ) (t : WildcardTreeNode) → IsMap t → IsMap (node_or t (removed name t))
unfolding removed IsMap get_child
removed-IsMap [] (tree b cs) h = h
removed-IsMap (ch ∷ name) (tree b cs) h =
    with_child-IsMap (λ u. rebuilt ch (tree b cs) (removed name u)) (tree b cs) h (find_child ch cs)
      (λ u e.
        rebuilt-IsMap ch b cs u h (removed name u) (removed-IsMap name u (child-IsMap ch cs u h e)))

-- Names are inserted, of at least one character, and removed.
pub data Command : Type 0 where
  inserts : ℕ → List ℕ → Command
  removes : List ℕ → Command

-- The newest command is the first.
unfoldable pub run : List Command → WildcardTreeNode
run [] = tree false no_children
run (inserts ch str ∷ commands) = insert (ch ∷ str) (run commands)
run (removes str ∷ commands) = remove str (run commands)

-- The set of names that the commands describe.
unfoldable pub is_online : List Command → List ℕ → Bool
is_online [] name = false
is_online (inserts ch str ∷ commands) name = is_online commands name || is_same name (ch ∷ str)
is_online (removes str ∷ commands) name = is_online commands name && not (is_same name str)

pub run-IsMap : (commands : List Command) → IsMap (run commands)
unfolding run IsMap remove
run-IsMap [] = tt
run-IsMap (inserts ch str ∷ commands) = insert-IsMap (ch ∷ str) (run commands) (run-IsMap commands)
run-IsMap (removes str ∷ commands) = removed-IsMap str (run commands) (run-IsMap commands)

nobody : (name : List ℕ) → has name (tree false no_children) ≡ false
unfolding has walk get_child find_child
nobody [] = refl
nobody (c ∷ name) = refl

-- After any history of insertions and removals the tree holds a name exactly when it was inserted and not
-- removed since.
pub has-run :
    (commands : List Command) (name : List ℕ) → has name (run commands) ≡ is_online commands name
unfolding run is_online
has-run [] name = nobody name
has-run (inserts ch str ∷ commands) name =
    has-insert ch str name (run commands)
    ∙ ap (λ b. b || is_same name (ch ∷ str)) (has-run commands name)
has-run (removes str ∷ commands) name =
    has-remove str name (run commands) (run-IsMap commands)
    ∙ ap (λ b. b && not (is_same name str)) (has-run commands name)

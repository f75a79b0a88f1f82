-- ===== src/WildcardTree.antt =====
-- src/wildcardtree.cpp and src/wildcardtree.h: the tree of the names of the players online. The `std::map`
-- of a node's children is a list with one entry for each character.
pub mod Insert
pub mod Remove
pub mod Names
pub mod Trim
pub mod Ambiguous
pub mod Walk
pub mod Find
use infernum_data_pack.Base.{
  ℕ, Bool, true, false, List, [], ◌∷◌, ◌++◌, Option, none, some, ◌==◌, ◌||◌, if◌then◌else◌,
}

mutual
  pub data WildcardTreeNode : Type 0 where
    tree : (breakpoint : Bool) → (children : Children) → WildcardTreeNode

  pub data Children : Type 0 where
    no_children : Children
    child : (ch : ℕ) → (t : WildcardTreeNode) → (rest : Children) → Children

pub data ReturnValue : Type 0 where
  noerror player_with_this_name_is_not_online name_is_too_ambiguous : ReturnValue

unfoldable pub find_child : ℕ → Children → Option WildcardTreeNode
find_child ch no_children = none
find_child ch (child c t rest) = if c == ch then some t else find_child ch rest

abbrev pub children_of : WildcardTreeNode → Children
children_of (tree b cs) = cs

abbrev pub breakpoint_of : WildcardTreeNode → Bool
breakpoint_of (tree b cs) = b

unfoldable pub get_child : ℕ → WildcardTreeNode → Option WildcardTreeNode
unfolding find_child
get_child ch t = find_child ch (children_of t)

-- `addChild` on the child that was found, or a new one.
abbrev pub mark : Bool → Option WildcardTreeNode → WildcardTreeNode
mark b none = tree b no_children
mark b (some (tree c cs)) = tree (c || b) cs

unfoldable pub put_child : ℕ → WildcardTreeNode → Children → Children
put_child ch t no_children = child ch t no_children
put_child ch t (child c u rest) =
    let others = put_child ch t rest in if c == ch then child c t rest else child c u others

abbrev pub is_last : List ℕ → Bool
is_last [] = true
is_last (c ∷ cs) = false

-- `insert` of a text of at least one character; the source reads past the end of an empty one.
unfoldable pub insert : List ℕ → WildcardTreeNode → WildcardTreeNode
unfolding get_child put_child
insert [] t = t
insert (ch ∷ str) t =
    tree (breakpoint_of t)
      (put_child ch (insert str (mark (is_last str) (get_child ch t))) (children_of t))

unfoldable pub erase_child : ℕ → Children → Children
erase_child ch no_children = no_children
erase_child ch (child c t rest) =
    let others = erase_child ch rest in if c == ch then rest else child c t others

abbrev pub is_bare : WildcardTreeNode → Bool
is_bare (tree b no_children) = if b then false else true
is_bare (tree b (child c t rest)) = false

abbrev pub with_child :
    (WildcardTreeNode → Option WildcardTreeNode) → Option WildcardTreeNode → Option WildcardTreeNode
with_child f none = none
with_child f (some u) = f u

-- A child that has become bare is erased.
abbrev pub rebuilt : ℕ → WildcardTreeNode → Option WildcardTreeNode → Option WildcardTreeNode
rebuilt ch t none = none
rebuilt ch t (some v) = some (
    if is_bare v
    then tree (breakpoint_of t) (erase_child ch (children_of t))
    else tree (breakpoint_of t) (put_child ch v (children_of t)))

-- `remove`: `none` when the text is not in the tree. Otherwise a node that has become bare is erased
-- from its parent.
unfoldable pub removed : List ℕ → WildcardTreeNode → Option WildcardTreeNode
removed [] t = some (tree false (children_of t))
removed (ch ∷ str) t = with_child (λ u. rebuilt ch t (removed str u)) (get_child ch t)

abbrev pub node_or : WildcardTreeNode → Option WildcardTreeNode → WildcardTreeNode
node_or t none = t
node_or t (some u) = u

unfoldable pub remove : List ℕ → WildcardTreeNode → WildcardTreeNode
remove str t = node_or t (removed str t)

-- The node that a text leads to.
unfoldable pub walk : List ℕ → WildcardTreeNode → Option WildcardTreeNode
unfolding get_child
walk [] t = some t
walk (ch ∷ str) t = elim (get_child ch t) [ none ↦ none | some u ↦ walk str u ]

-- The loop of `findOne` from the node that the query leads to; the text is what it adds to the query.
unfoldable pub extend : WildcardTreeNode → ReturnValue × List ℕ
extend (tree b no_children) = (noerror, [])
extend (tree b (child c t no_children)) =
    let (r, more) = extend t in if b then (name_is_too_ambiguous, []) else (r, c ∷ more)
extend (tree b (child c t (child d u rest))) = (name_is_too_ambiguous, [])

-- `findOne` from the node that the query leads to.
abbrev pub answer : List ℕ → List ℕ → Option WildcardTreeNode → ReturnValue × List ℕ
answer query result none = (player_with_this_name_is_not_online, result)
answer query result (some u) = ((extend u).0, query ++ (extend u).1)

-- `findOne`: the value returned and the `result`, which stays as it was when no name begins so.
unfoldable pub find_one : List ℕ → List ℕ → WildcardTreeNode → ReturnValue × List ℕ
find_one query result t = answer query result (walk query t)

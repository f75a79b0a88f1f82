-- ===== src/WildcardTree/Walk.antt =====
-- Where a text leads to in the tree of src/wildcardtree.cpp.
use infernum_data_pack.Base.{
  ℕ, ◌≡◌, refl, sym, ap, subst, ◌∙◌, Bool, false, List, [], ◌∷◌, ◌++◌, Option, none, some,
}
use infernum_data_pack.WildcardTree.{WildcardTreeNode, tree, find_child, get_child, is_bare, walk}
use infernum_data_pack.WildcardTree.Insert.{has, has_below, has_step}
use infernum_data_pack.WildcardTree.Remove.{IsMap, child-IsMap}
use infernum_data_pack.WildcardTree.Trim.{IsTrim, FoundTrim, find_child-FoundTrim}

abbrev walk_below : List ℕ → Option WildcardTreeNode → Option WildcardTreeNode
walk_below query none = none
walk_below query (some u) = walk query u

walk_step :
    (c : ℕ) (query : List ℕ) (t : WildcardTreeNode)
    → walk (c ∷ query) t ≡ walk_below query (get_child c t)
unfolding walk
walk_step c query t =
    elim (get_child c t)
      as (λ o. (elim o [ none ↦ none | some u ↦ walk query u ]) ≡ walk_below query o) [
        | none ↦ refl
        | some u ↦ refl
      ]

abbrev pub names_below : List ℕ → Option WildcardTreeNode → Bool
names_below more none = false
names_below more (some u) = has more u

append_below :
    (query more : List ℕ)
    → ((u : WildcardTreeNode) → has (query ++ more) u ≡ names_below more (walk query u))
    → (o : Option WildcardTreeNode)
    → has_below (query ++ more) o ≡ names_below more (walk_below query o)
append_below query more h none = refl
append_below query more h (some u) = h u

-- The names that begin with a text are those below the node that it leads to.
pub has-append :
    (query more : List ℕ) (t : WildcardTreeNode)
    → has (query ++ more) t ≡ names_below more (walk query t)
unfolding walk
has-append [] more t = refl
has-append (c ∷ query) more t =
    has_step c (query ++ more) t
    ∙ append_below query more (has-append query more) (get_child c t)
    ∙ ap (names_below more) (sym (walk_step c query t))

below-FoundTrim :
    (query : List ℕ)
    → ((u : WildcardTreeNode) → is_bare u ≡ false → IsTrim u → FoundTrim (walk query u))
    → (o : Option WildcardTreeNode) → FoundTrim o
    → FoundTrim (walk_below query o)
unfolding FoundTrim
below-FoundTrim query h none k = tt
below-FoundTrim query h (some u) k = h u k.0 k.1

pub step-FoundTrim :
    (c : ℕ) (query : List ℕ) (t : WildcardTreeNode)
    → ((u : WildcardTreeNode) → is_bare u ≡ false → IsTrim u → FoundTrim (walk query u))
    → IsTrim t
    → FoundTrim (walk (c ∷ query) t)
unfolding IsTrim get_child
step-FoundTrim c query (tree b cs) h k =
    subst FoundTrim (sym (walk_step c query (tree b cs)))
      (below-FoundTrim query h (find_child c cs) (find_child-FoundTrim c cs k))

pub walk-FoundTrim :
    (query : List ℕ) (u : WildcardTreeNode)
    → is_bare u ≡ false
    → IsTrim u
    → FoundTrim (walk query u)
unfolding walk FoundTrim
walk-FoundTrim [] u l h = (l, h)
walk-FoundTrim (c ∷ query) u l h = step-FoundTrim c query u (walk-FoundTrim query) h

-- The node that a text leads to, if any, has different characters for its children.
unfoldable pub FoundMap : Option WildcardTreeNode → Type 0
FoundMap none = Unit {0}
FoundMap (some u) = IsMap u

below-FoundMap :
    (query : List ℕ)
    → ((u : WildcardTreeNode) → IsMap u → FoundMap (walk query u))
    → (o : Option WildcardTreeNode) → ((u : WildcardTreeNode) → o ≡ some u → IsMap u)
    → FoundMap (walk_below query o)
unfolding FoundMap
below-FoundMap query h none k = tt
below-FoundMap query h (some u) k = h u (k u refl)

pub step-FoundMap :
    (c : ℕ) (query : List ℕ) (u : WildcardTreeNode)
    → ((v : WildcardTreeNode) → IsMap v → FoundMap (walk query v))
    → IsMap u
    → FoundMap (walk (c ∷ query) u)
unfolding IsMap get_child
step-FoundMap c query (tree b cs) h m =
    subst FoundMap (sym (walk_step c query (tree b cs)))
      (below-FoundMap query h (find_child c cs) (λ v e. child-IsMap c cs v m e))

pub walk-FoundMap : (query : List ℕ) (u : WildcardTreeNode) → IsMap u → FoundMap (walk query u)
unfolding walk FoundMap
walk-FoundMap [] u h = h
walk-FoundMap (c ∷ query) u h = step-FoundMap c query u (walk-FoundMap query) h

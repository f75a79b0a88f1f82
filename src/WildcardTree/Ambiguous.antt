-- ===== src/WildcardTree/Ambiguous.antt =====
-- When `findOne` of src/wildcardtree.cpp finds a name too ambiguous.
use mathlib.Core.Bool.{true≢false}
use infernum_data_pack.Base.{
  ℕ, ◌≡◌, ◌≢◌, refl, sym, ap, ◌∙◌, Bool, true, false, List, [], ◌∷◌, Option, none, some, arith,
  ◌==◌, Bool-cases, inl, inr, ==_self,
}
use infernum_data_pack.WildcardTree.{
  WildcardTreeNode, Children, tree, child, no_children, find_child, get_child, is_bare, walk,
  extend, is_last, ReturnValue, name_is_too_ambiguous,
}
use infernum_data_pack.WildcardTree.Insert.{has, has_step}
use infernum_data_pack.WildcardTree.Remove.{IsMap, AreMap}
use infernum_data_pack.WildcardTree.Trim.{IsTrim, AreTrim}

abbrev pub is_ambiguous : ReturnValue → Bool
is_ambiguous name_is_too_ambiguous = true
is_ambiguous _ = false

first_has :
    (b : Bool) (c : ℕ) (t : WildcardTreeNode) (rest : Children) (more : List ℕ)
    → has (c ∷ more) (tree b (child c t rest)) ≡ has more t
unfolding get_child find_child
first_has b c t rest more = has_step c more (tree b (child c t rest)) ∙ simp (==_self c) refl

second_has :
    (b : Bool) (c d : ℕ) (t u : WildcardTreeNode) (rest : Children) (more : List ℕ)
    → (c == d) ≡ false
    → has (d ∷ more) (tree b (child c t (child d u rest))) ≡ has more u
unfolding get_child find_child
second_has b c d t u rest more e =
    has_step d more (tree b (child c t (child d u rest))) ∙ simp (e, ==_self d) refl

-- A name ends at every node that is not bare, or below it.
some_name :
    (u : WildcardTreeNode) → IsTrim u → is_bare u ≡ false → (more : List ℕ) × (has more u ≡ true)
unfolding IsTrim AreTrim has walk
some_name (tree true cs) h l = ([], refl)
some_name (tree false no_children) h l = absurd (ground (arith, l))
some_name (tree false (child c t rest)) h l =
    let (more, e) = some_name t h.1 h.0 in (c ∷ more, first_has false c t rest more ∙ e)

-- Two different names end at a node or below it.
pub record TwoNames (u : WildcardTreeNode) : Type 0 where
  pub one : List ℕ
  pub other : List ℕ
  pub has_one : has one u ≡ true
  pub has_other : has other u ≡ true
  pub differ : one ≢ other

is_found : Option WildcardTreeNode → Bool
is_found none = false
is_found (some u) = true

keys_differ :
    (c d : ℕ) (u : WildcardTreeNode) (rest : Children)
    → find_child c (child d u rest) ≡ none
    → (c == d) ≡ false
unfolding find_child is_found
keys_differ c d u rest h = elim (Bool-cases (d == c)) [
  | inl e ↦ absurd (true≢false (ap is_found (simp e at h)))
  | inr e ↦ ground (arith, e)
]

heads_differ : (c d : ℕ) (xs ys : List ℕ) → (c == d) ≡ false → c ∷ xs ≢ d ∷ ys
heads_differ c d xs ys e h = ground (arith, e, h)

tails_differ : (c : ℕ) (xs ys : List ℕ) → xs ≢ ys → c ∷ xs ≢ c ∷ ys
tails_differ c xs ys e h = e cc

pub extend-TwoNames :
    (u : WildcardTreeNode) → IsTrim u → IsMap u → is_ambiguous (extend u).0 ≡ true → TwoNames u
unfolding extend IsTrim AreTrim IsMap AreMap has walk
extend-TwoNames (tree b no_children) h m e = absurd (true≢false (sym e))
extend-TwoNames (tree true (child c t no_children)) h m e =
    let (more, f) = some_name t h.1 h.0 in
    record {
      one = [];
      other = c ∷ more;
      has_one = refl;
      has_other = first_has true c t no_children more ∙ f;
      differ = λ g. true≢false (ap is_last g);
    }
extend-TwoNames (tree false (child c t no_children)) h m e =
    let r = extend-TwoNames t h.1 m.1 e in
    record {
      one = c ∷ r.one;
      other = c ∷ r.other;
      has_one = first_has false c t no_children r.one ∙ r.has_one;
      has_other = first_has false c t no_children r.other ∙ r.has_other;
      differ = tails_differ c r.one r.other r.differ;
    }
extend-TwoNames (tree b (child c t (child d v rest))) h m e =
    let apart = keys_differ c d v rest m.0 in
    let (one, f) = some_name t h.1 h.0 in
    let (other, g) = some_name v h.2.1 h.2.0 in
    record {
      one = c ∷ one;
      other = d ∷ other;
      has_one = first_has b c t (child d v rest) one ∙ f;
      has_other = second_has b c d t v rest other apart ∙ g;
      differ = heads_differ c d one other apart;
    }

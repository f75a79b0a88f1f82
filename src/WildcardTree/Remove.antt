-- ===== src/WildcardTree/Remove.antt =====
-- What `remove` of src/wildcardtree.cpp does to the names in the tree.
use mathlib.Core.Bool.{true≢false}
use infernum_data_pack.Base.{
  ℕ, ◌≡◌, refl, sym, ap, subst, ◌∙◌, Bool, true, false, not, List, [], ◌∷◌, Option, none, some,
  arith, ◌==◌, ◌&&◌, if◌then◌else◌, Bool-cases, Option-cases, inl, inr, ==→eq,
}
use infernum_data_pack.WildcardTree.{
  WildcardTreeNode, Children, tree, child, no_children, find_child, get_child, put_child,
  erase_child, is_bare, removed, rebuilt, with_child, node_or, walk, children_of, breakpoint_of,
}
use infernum_data_pack.WildcardTree.Insert.{has, has_below, has_step, is_same, find_child-put_child}

unfoldable mutual
  -- The children of each node have different characters, as the keys of a `std::map` do.
  pub IsMap : WildcardTreeNode → Type 0
  IsMap (tree b cs) = AreMap cs

  pub AreMap : Children → Type 0
  AreMap no_children = Unit {0}
  AreMap (child c t rest) = (find_child c rest ≡ none) × IsMap t × AreMap rest

pub find_child-erase_child :
    (ch dh : ℕ) (cs : Children)
    → AreMap cs
    → find_child dh (erase_child ch cs) ≡ (if ch == dh then none else find_child dh cs)
unfolding find_child erase_child AreMap
find_child-erase_child ch dh no_children h = ground arith
find_child-erase_child ch dh (child c t rest) h = elim (Bool-cases (c == ch)) [
  | inl e ↦ elim (Bool-cases (ch == dh)) [
    | inl f ↦ simp (e, f) (subst (λ x. find_child x rest ≡ none) (==→eq c ch e ∙ ==→eq ch dh f) h.0)
    | inr f ↦ simp (e, f, subst (λ x. (x == dh) ≡ false) (sym (==→eq c ch e)) f) refl
  ]
  | inr e ↦ elim (Bool-cases (c == dh)) [
    | inl f ↦ simp (e, f) (ground (arith, e, f))
    | inr f ↦ simp (e, f) (find_child-erase_child ch dh rest h.2)
  ]
]

bare_has : (v : WildcardTreeNode) (str : List ℕ) → is_bare v ≡ true → has str v ≡ false
unfolding has walk get_child find_child
bare_has (tree true no_children) str h = absurd (ground (arith, h))
bare_has (tree false no_children) [] h = refl
bare_has (tree false no_children) (c ∷ str) h = refl
bare_has (tree b (child c t rest)) str h = absurd (ground (arith, h))

-- The node without a child that has become bare, or with what the child has become.
abbrev cut : ℕ → WildcardTreeNode → WildcardTreeNode → WildcardTreeNode
cut ch t v =
    if is_bare v
    then tree (breakpoint_of t) (erase_child ch (children_of t))
    else tree (breakpoint_of t) (put_child ch v (children_of t))

has_below-cut :
    (ch dh : ℕ) (str : List ℕ) (t v : WildcardTreeNode)
    → IsMap t
    → has (dh ∷ str) (cut ch t v) ≡ (if ch == dh then has str v else has (dh ∷ str) t)
unfolding IsMap get_child
has_below-cut ch dh str (tree b cs) v h = elim (Bool-cases (is_bare v)) [
  | inl e ↦ simp e (
      has_step dh str (tree b (erase_child ch cs))
      ∙ ap (has_below str) (find_child-erase_child ch dh cs h)
      ∙ elim (Bool-cases (ch == dh)) [
        | inl f ↦ simp f (sym (bare_has v str e))
        | inr f ↦ simp f (sym (has_step dh str (tree b cs)))
      ])
  | inr e ↦ simp e (
      has_step dh str (tree b (put_child ch v cs))
      ∙ ap (has_below str) (find_child-put_child dh ch v cs)
      ∙ elim (Bool-cases (ch == dh)) [
        | inl f ↦ simp f refl
        | inr f ↦ simp f (sym (has_step dh str (tree b cs)))
      ])
]

abbrev is_some : Option WildcardTreeNode → Bool
is_some none = false
is_some (some t) = true

pub child-IsMap :
    (ch : ℕ) (cs : Children) (u : WildcardTreeNode)
    → AreMap cs
    → find_child ch cs ≡ some u
    → IsMap u
unfolding find_child AreMap
child-IsMap ch no_children u h e = absurd (true≢false (ap is_some (sym e)))
child-IsMap ch (child c t rest) u h e = elim (Bool-cases (c == ch)) [
  | inl f ↦ subst IsMap (ap (node_or u) (simp f at e)) h.1
  | inr f ↦ child-IsMap ch rest u h.2 (simp f at e)
]

and_true : (b : Bool) → b ≡ (b && true)
and_true b = ground arith

through :
    (ch : ℕ) (str : List ℕ) (t u : WildcardTreeNode)
    → get_child ch t ≡ some u
    → has (ch ∷ str) t ≡ has str u
through ch str t u e = has_step ch str t ∙ ap (has_below str) e

module _ (ch : ℕ) (name : List ℕ) (t : WildcardTreeNode) where
  -- No child for the first character: the name was not in the tree.
  no_way :
      get_child ch t ≡ none
      → (str : List ℕ) → has str t ≡ (has str t && not (is_same str (ch ∷ name)))
  unfolding is_same
  no_way e [] = and_true (has [] t)
  no_way e (x ∷ str) = elim (Bool-cases (ch == x)) [
    | inl f ↦
        (let gone : has (x ∷ str) t ≡ false =
            has_step x str t
            ∙ ap (has_below str) (subst (λ y. get_child y t ≡ none) (==→eq ch x f) e) in
          simp (f, gone) refl)
    | inr f ↦ simp f (and_true (has (x ∷ str) t))
  ]

  -- The name was removed below the child.
  one_step :
      (u w r : WildcardTreeNode)
      → get_child ch t ≡ some u
      → ((str : List ℕ) → has str w ≡ (has str u && not (is_same str name)))
      → has [] r ≡ has [] t
      → ((x : ℕ) (str : List ℕ)
          → has (x ∷ str) r ≡ (if ch == x then has str w else has (x ∷ str) t))
      → (str : List ℕ) → has str r ≡ (has str t && not (is_same str (ch ∷ name)))
  unfolding is_same
  one_step u w r e below root next [] = root ∙ and_true (has [] t)
  one_step u w r e below root next (x ∷ str) = elim (Bool-cases (ch == x)) [
    | inl f ↦
        (let way : has (x ∷ str) t ≡ has str u =
            subst (λ y. has (y ∷ str) t ≡ has str u) (==→eq ch x f) (through ch str t u e) in
          next x str ∙ simp (f, way) (below str))
    | inr f ↦ next x str ∙ simp f (and_true (has (x ∷ str) t))
  ]

cut_root : (ch : ℕ) (t v : WildcardTreeNode) → has [] (cut ch t v) ≡ has [] t
unfolding has walk
cut_root ch (tree b cs) v = elim (Bool-cases (is_bare v)) [
  | inl e ↦ simp e refl
  | inr e ↦ simp e refl
]

stays :
    (ch : ℕ) (t u : WildcardTreeNode)
    → get_child ch t ≡ some u
    → (x : ℕ) (str : List ℕ) → has (x ∷ str) t ≡ (if ch == x then has str u else has (x ∷ str) t)
stays ch t u e x str = elim (Bool-cases (ch == x)) [
  | inl f ↦ simp f (subst (λ y. has (y ∷ str) t ≡ has str u) (==→eq ch x f) (through ch str t u e))
  | inr f ↦ simp f refl
]

pub has-removed :
    (name : List ℕ) (t : WildcardTreeNode)
    → IsMap t
    → (str : List ℕ) → has str (node_or t (removed name t)) ≡ (has str t && not (is_same str name))
unfolding removed IsMap has walk get_child is_same
has-removed [] (tree b cs) h [] = ground arith
has-removed [] (tree b cs) h (x ∷ str) = and_true _
has-removed (ch ∷ name) (tree b cs) h str =
    let t = tree b cs in
    let below : WildcardTreeNode → Option WildcardTreeNode = λ u. rebuilt ch t (removed name u) in
    elim (Option-cases (get_child ch t)) [
      | inl e ↦ ap (λ o. has str (node_or t (with_child below o))) e ∙ no_way ch name t e str
      | inr (u, e) ↦
          ap (λ o. has str (node_or t (with_child below o))) e
          ∙ elim (Option-cases (removed name u)) [
            | inl f ↦
                ap (λ o. has str (node_or t (rebuilt ch t o))) f
                ∙ one_step ch name t u u t e
                    (λ xs.
                      ap (λ o. has xs (node_or u o)) (sym f)
                      ∙ has-removed name u (child-IsMap ch cs u h e) xs)
                    refl (stays ch t u e) str
            | inr (v, f) ↦
                ap (λ o. has str (node_or t (rebuilt ch t o))) f
                ∙ one_step ch name t u v (cut ch t v) e
                    (λ xs.
                      ap (λ o. has xs (node_or u o)) (sym f)
                      ∙ has-removed name u (child-IsMap ch cs u h e) xs)
                    (cut_root ch t v) (λ x xs. has_below-cut ch x xs t v h) str
          ]
    ]

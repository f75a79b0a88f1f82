-- ===== src/WildcardTree/Insert.antt =====
-- What `insert` and `findOne` of src/wildcardtree.cpp do to the names in the tree.
use infernum_data_pack.Base.{
  ℕ, ◌≡◌, refl, sym, ap, ◌∙◌, Bool, true, false, List, [], ◌∷◌, Option, none, some, arith, ◌==◌,
  ◌||◌, ◌&&◌, if◌then◌else◌, Bool-cases, inl, inr, ==→eq,
}
use infernum_data_pack.WildcardTree.{
  WildcardTreeNode, Children, tree, child, no_children, find_child, get_child, mark, put_child,
  is_last, insert, walk, children_of,
}

-- Whether a text is a name in the tree: it leads to a node with a breakpoint.
abbrev pub is_marked : Option WildcardTreeNode → Bool
is_marked none = false
is_marked (some (tree b cs)) = b

unfoldable pub has : List ℕ → WildcardTreeNode → Bool
unfolding walk
has str t = is_marked (walk str t)

unfoldable pub is_same : List ℕ → List ℕ → Bool
is_same [] [] = true
is_same [] (y ∷ ys) = false
is_same (x ∷ xs) [] = false
is_same (x ∷ xs) (y ∷ ys) = y == x && is_same xs ys

pub find_child-put_child :
    (ch dh : ℕ) (t : WildcardTreeNode) (cs : Children)
    → find_child ch (put_child dh t cs) ≡ (if dh == ch then some t else find_child ch cs)
unfolding find_child put_child
find_child-put_child ch dh t no_children = refl
find_child-put_child ch dh t (child c u rest) = ground (arith, find_child-put_child ch dh t rest)

abbrev pub has_below : List ℕ → Option WildcardTreeNode → Bool
has_below str none = false
has_below str (some t) = has str t

pub has_step :
    (ch : ℕ) (str : List ℕ) (t : WildcardTreeNode)
    → has (ch ∷ str) t ≡ has_below str (get_child ch t)
unfolding has walk
has_step ch str t =
    elim (get_child ch t)
      as (λ o. is_marked (elim o [ none ↦ none | some u ↦ walk str u ]) ≡ has_below str o) [
        | none ↦ refl
        | some u ↦ refl
      ]

or_false : (b : Bool) → (b || false) ≡ b
or_false true = refl
or_false false = refl

-- A child that was marked has the names that it had, and the empty rest if it is a breakpoint now.
has-mark :
    (b : Bool) (str : List ℕ) (o : Option WildcardTreeNode)
    → has str (mark b o) ≡ (has_below str o || (is_last str && b))
unfolding has walk get_child find_child
has-mark b [] none = ground arith
has-mark b (ch ∷ str) none = refl
has-mark b [] (some (tree c cs)) = ground arith
has-mark b (ch ∷ str) (some (tree c cs)) = sym (or_false (has (ch ∷ str) (tree c cs)))

get_child-insert :
    (ch dh : ℕ) (str : List ℕ) (t : WildcardTreeNode)
    → get_child ch (insert (dh ∷ str) t) ≡ (
        if dh == ch
        then some (insert str (mark (is_last str) (get_child dh t)))
        else get_child ch t)
unfolding get_child insert
get_child-insert ch dh str t =
    find_child-put_child ch dh (insert str (mark (is_last str) (get_child dh t))) (children_of t)

is_same-nil : (xs : List ℕ) → (is_last xs && true) ≡ is_same xs []
unfolding is_same
is_same-nil [] = refl
is_same-nil (x ∷ xs) = refl

unmarked : (b c : Bool) → (b || (c && false)) ≡ b
unmarked b c = ground arith

-- The child that the first character leads to decides.
pick :
    (ch x : ℕ) (xs str : List ℕ) (f : ℕ → Option WildcardTreeNode) (inner : WildcardTreeNode)
    → has xs inner ≡ (has_below xs (f ch) || is_same xs str)
    → has_below xs (if ch == x then some inner else f x)
      ≡ (has_below xs (f x) || is_same (x ∷ xs) (ch ∷ str))
unfolding is_same
pick ch x xs str f inner h = elim (Bool-cases (ch == x)) [
  | inl e ↦ simp e (h ∙ ap (λ n. has_below xs (f n) || is_same xs str) (==→eq ch x e))
  | inr e ↦ simp e (sym (or_false (has_below xs (f x))))
]

-- Inserting a name of at least one character puts exactly that name in the tree: every other text is a name
-- afterwards if it was one before.
pub has-insert :
    (ch : ℕ) (str xs : List ℕ) (t : WildcardTreeNode)
    → has xs (insert (ch ∷ str) t) ≡ (has xs t || is_same xs (ch ∷ str))
has-insert ch str [] (tree b cs) = unfold has walk insert is_same in sym (or_false b)
has-insert ch [] (x ∷ xs) t =
    let o = get_child ch t in
    has_step x xs (insert (ch ∷ []) t)
    ∙ (ap (has_below xs) (get_child-insert x ch [] t)
        ∙ (pick ch x xs [] (λ n. get_child n t) (insert [] (mark true o))
              (unfold insert in
                (has-mark true xs o ∙ ap (λ b. has_below xs o || b) (is_same-nil xs)))
            ∙ ap (λ b. b || is_same (x ∷ xs) (ch ∷ [])) (sym (has_step x xs t))))
has-insert ch (d ∷ str) (x ∷ xs) t =
    let o = get_child ch t in
    has_step x xs (insert (ch ∷ d ∷ str) t)
    ∙ (ap (has_below xs) (get_child-insert x ch (d ∷ str) t)
        ∙ (pick ch x xs (d ∷ str) (λ n. get_child n t) (insert (d ∷ str) (mark false o))
              (has-insert d str xs (mark false o)
                ∙ ap (λ b. b || is_same xs (d ∷ str))
                    (has-mark false xs o ∙ unmarked (has_below xs o) (is_last xs)))
            ∙ ap (λ b. b || is_same (x ∷ xs) (ch ∷ d ∷ str)) (sym (has_step x xs t))))

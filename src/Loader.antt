-- ===== src/Loader.antt =====
-- The binary trees of src/fileloader.cpp and the properties in them, src/fileloader.h. A file is the list
-- of its bytes, and the stretch from `propsBegin` to `propsEnd` is the list of those bytes.

pub mod RoundTrip
pub mod PropStream
use infernum_data_pack.Base.{
  ℕ, ◌+◌, Bool, true, false, not, List, [], ◌∷◌, ◌++◌, Option, none, some, length, take, drop, ◌==◌,
  ◌&&◌, ◌||◌, leb, if◌then◌else◌,
}

mutual
  pub data Node : Type 0 where
    node : (type : ℕ) → (props : List ℕ) → (children : Children) → Node

  pub data Children : Type 0 where
    no_children : Children
    emplace_back : Children → Node → Children

abbrev pub node_escape : ℕ
node_escape = 253

abbrev pub node_start : ℕ
node_start = 254

abbrev pub node_end : ℕ
node_end = 255

-- A node on the stack. Its properties have ended once it has a child.
pub record Open : Type 0 where
  pub type : ℕ
  pub props : List ℕ
  pub ended : Bool
  pub children : Children

-- What the byte under the iterator is: one that the loop looks at, the type after a start, or the byte
-- after an escape.
pub data Mode : Type 0 where
  plain after_start after_escape : Mode

pub record Loading : Type 0 where
  pub mode : Mode
  pub parse_stack : List Open
  -- The root, once its end was found.
  pub root : Option Node

abbrev pub new_node : ℕ → Open
new_node t = record { type = t; props = []; ended = false; children = no_children }

unfoldable pub keep : ℕ → List Open → List Open
keep b [] = []
keep b (o ∷ os) = (if o.ended then o else record o { props = o.props ++ b ∷ [] }) ∷ os

abbrev pub close : Open → Node
close o = node (o.type) (o.props) (o.children)

unfoldable pub start_node : List Open → Option Node → Option Loading
start_node [] r = none
start_node (o ∷ os) r =
    some (record { mode = after_start; parse_stack = record o { ended = true } ∷ os; root = r })

unfoldable pub end_node : List Open → Option Node → Option Loading
end_node [] r = none
end_node (o ∷ []) r = some (record { mode = plain; parse_stack = []; root = some (close o) })
end_node (o ∷ p ∷ ps) r = some (record {
  mode = plain;
  parse_stack = record p { children = emplace_back p.children (close o) } ∷ ps;
  root = r;
})

-- One byte of the loop of `parseTree`; `none` is the exception `InvalidOTBFormat`.
unfoldable pub step : ℕ → Mode → List Open → Option Node → Option Loading
unfolding keep start_node end_node
step b plain os r =
    if b == node_start
    then start_node os r
    else if b == node_end
    then end_node os r
    else if b == node_escape
    then some (record { mode = after_escape; parse_stack = keep b os; root = r })
    else some (record { mode = plain; parse_stack = keep b os; root = r })
step b after_start os r = some (record { mode = plain; parse_stack = new_node b ∷ os; root = r })
step b after_escape os r = some (record { mode = plain; parse_stack = keep b os; root = r })

abbrev pub finish : Mode → List Open → Option Node → Option Node
finish plain [] r = r
finish plain (o ∷ os) r = none
finish after_start os r = none
finish after_escape os r = none

unfoldable pub scan : List ℕ → Loading → Option Node
unfolding step
scan [] s = finish s.mode s.parse_stack s.root
scan (b ∷ bs) s = elim (step b s.mode s.parse_stack s.root) [ none ↦ none | some s' ↦ scan bs s' ]

unfoldable pub parse_tree : List ℕ → Option Node
unfolding scan
parse_tree [] = none
parse_tree (b ∷ []) = none
parse_tree (b ∷ t ∷ bs) =
    if b == node_start
    then scan bs (record { mode = plain; parse_stack = new_node t ∷ []; root = none })
    else none

unfoldable pub is_same : List ℕ → List ℕ → Bool
is_same [] [] = true
is_same [] (y ∷ ys) = false
is_same (x ∷ xs) [] = false
is_same (x ∷ xs) (y ∷ ys) = x == y && is_same xs ys

abbrev pub wildcard : List ℕ
wildcard = 0 ∷ 0 ∷ 0 ∷ 0 ∷ []

-- The constructor `Loader` and then `parseTree`.
unfoldable pub load : List ℕ → List ℕ → Option Node
unfolding parse_tree is_same
load accepted file =
    if leb (length file) 7
    then none
    else if not (is_same (take 4 file) accepted) && not (is_same (take 4 file) wildcard)
    then none
    else parse_tree (drop 4 file)

-- The filter of `getProps`; the flag is `lastEscaped`.
unfoldable pub unescape : Bool → List ℕ → List ℕ
unescape last [] = []
unescape last (b ∷ bs) =
    if b == node_escape && not last then unescape true bs else b ∷ unescape false bs

unfoldable pub get_props : Node → Option (List ℕ)
unfolding unescape
get_props (node t [] cs) = none
get_props (node t (b ∷ bs) cs) = some (unescape false (b ∷ bs))

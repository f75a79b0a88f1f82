-- ===== src/Loader/RoundTrip.antt =====
-- What a file of nodes says, and that src/fileloader.cpp reads it so.
use infernum_data_pack.Base.{
  ℕ, ◌<◌, ◌≡◌, refl, sym, ap, ◌∙◌, Bool, true, false, List, [], ◌∷◌, ◌++◌, append_assoc, append-nil,
  Option, none, some, length, arith, ◌==◌, ◌&&◌, leb, if◌then◌else◌, ==_ne, ==_self, Bool-cases,
  inl, inr,
}
use infernum_data_pack.Loader.{
  Node, Children, node, no_children, emplace_back, node_escape, node_start, node_end, Open, plain,
  Loading, new_node, keep, start_node, end_node, step, scan, parse_tree, is_same, load, unescape,
  get_props,
}

-- A byte of the properties that the format uses for itself has an escape in front.
unfoldable pub escape : List ℕ → List ℕ
escape [] = []
escape (b ∷ bs) = let rest = escape bs in if leb 253 b then node_escape ∷ b ∷ rest else b ∷ rest

-- A tree as the file has it.
unfoldable mutual
  pub encode : Node → List ℕ
  encode (node t ps cs) = node_start ∷ t ∷ (escape ps ++ (encode_all cs ++ (node_end ∷ [])))

  pub encode_all : Children → List ℕ
  encode_all no_children = []
  encode_all (emplace_back cs n) = encode_all cs ++ encode n

-- A tree as `parseTree` gives it, with the escapes in the properties.
unfoldable mutual
  pub raw : Node → Node
  raw (node t ps cs) = node t (escape ps) (raw_all cs)

  pub raw_all : Children → Children
  raw_all no_children = no_children
  raw_all (emplace_back cs n) = emplace_back (raw_all cs) (raw n)

abbrev is_nil : List ℕ → Bool
is_nil [] = true
is_nil (b ∷ bs) = false

abbrev is_nonempty : Children → Bool
is_nonempty no_children = false
is_nonempty (emplace_back cs n) = true

abbrev at_plain : List Open → Option Node → Loading
at_plain os r = record { mode = plain; parse_stack = os; root = r }

abbrev open_node : ℕ → List ℕ → Bool → Children → Open
open_node t ps b cs = record { type = t; props = ps; ended = b; children = cs }

scan-step :
    (b : ℕ) (bs : List ℕ) (os : List Open) (r : Option Node) (s : Loading)
    → step b plain os r ≡ some s
    → scan (b ∷ bs) (at_plain os r) ≡ scan bs s
unfolding scan
scan-step b bs os r s h = ap (λ x. elim x [ none ↦ none | some s' ↦ scan bs s' ]) h

step_kept :
    (b t : ℕ) (qs : List ℕ) (os : List Open) (r : Option Node)
    → leb 253 b ≡ false
    → step b plain (open_node t qs false no_children ∷ os) r
      ≡ some (at_plain (open_node t (qs ++ b ∷ []) false no_children ∷ os) r)
unfolding step keep
step_kept b t qs os r h =
    simp (==_ne b 254 (ground arith), ==_ne b 255 (ground arith), ==_ne b 253 (ground arith)) refl

append_one : (qs rs : List ℕ) (b : ℕ) → (qs ++ b ∷ []) ++ rs ≡ qs ++ b ∷ rs
append_one qs rs b = append_assoc qs (b ∷ []) rs

-- The properties of the node on top are collected.
scan-escape :
    (t : ℕ) (ps qs rest : List ℕ) (os : List Open) (r : Option Node)
    → scan (escape ps ++ rest) (at_plain (open_node t qs false no_children ∷ os) r)
      ≡ scan rest (at_plain (open_node t (qs ++ escape ps) false no_children ∷ os) r)
unfolding scan escape
scan-escape t [] qs rest os r =
    ap (λ l. scan rest (at_plain (open_node t l false no_children ∷ os) r)) (sym (append-nil qs))
scan-escape t (b ∷ ps) qs rest os r = elim (Bool-cases (leb 253 b)) [
  | inl h ↦ simp h (
      unfold step keep in
      (scan-escape t ps ((qs ++ 253 ∷ []) ++ b ∷ []) rest os r
        ∙ ap (λ l. scan rest (at_plain (open_node t l false no_children ∷ os) r))
            (append_one (qs ++ 253 ∷ []) (escape ps) b ∙ append_one qs (b ∷ escape ps) 253)))
  | inr h ↦ simp h (
      scan-step b (escape ps ++ rest) (open_node t qs false no_children ∷ os) r
        (at_plain (open_node t (qs ++ b ∷ []) false no_children ∷ os) r) (step_kept b t qs os r h)
      ∙ (scan-escape t ps (qs ++ b ∷ []) rest os r
          ∙ ap (λ l. scan rest (at_plain (open_node t l false no_children ∷ os) r))
              (append_one qs (escape ps) b)))
]

-- What closing the node on top does to the stack and the root.
abbrev closed : Node → List Open → Option Node → Loading
closed n [] r = at_plain [] (some n)
closed n (p ∷ ps) r = at_plain (record p { children = emplace_back p.children n } ∷ ps) r

scan_end :
    (t : ℕ) (ps : List ℕ) (b : Bool) (cs : Children) (rest : List ℕ) (os : List Open)
    (r : Option Node)
    → scan (node_end ∷ rest) (at_plain (open_node t ps b cs ∷ os) r)
      ≡ scan rest (closed (node t ps cs) os r)
unfolding scan step end_node
scan_end t ps b cs rest [] r = refl
scan_end t ps b cs rest (p ∷ os) r = refl

abbrev written : ℕ → List ℕ → Children → List ℕ → List ℕ
written u qs ds rest = escape qs ++ (encode_all ds ++ (node_end ∷ rest))

regroup :
    (cs : Children) (u : ℕ) (qs : List ℕ) (ds : Children) (rest : List ℕ)
    → encode_all (emplace_back cs (node u qs ds)) ++ rest
      ≡ encode_all cs ++ (node_start ∷ u ∷ written u qs ds rest)
unfolding encode encode_all
regroup cs u qs ds rest =
    append_assoc (encode_all cs) (encode (node u qs ds)) rest
    ∙ ap (λ l. encode_all cs ++ (node_start ∷ u ∷ l))
        (append_assoc (escape qs) (encode_all ds ++ (node_end ∷ [])) rest
          ∙ ap (λ l. escape qs ++ l) (append_assoc (encode_all ds) (node_end ∷ []) rest))

scan_start :
    (u t : ℕ) (ps bs : List ℕ) (b : Bool) (cs : Children) (os : List Open) (r : Option Node)
    → scan (node_start ∷ u ∷ bs) (at_plain (open_node t ps b cs ∷ os) r)
      ≡ scan bs (at_plain (new_node u ∷ open_node t ps true cs ∷ os) r)
unfolding scan step start_node
scan_start u t ps bs b cs os r = refl

scan_children :
    (t : ℕ) (ps : List ℕ) (cs : Children) (rest : List ℕ) (os : List Open) (r : Option Node)
    → scan (encode_all cs ++ rest) (at_plain (open_node t ps false no_children ∷ os) r)
      ≡ scan rest (at_plain (open_node t ps (is_nonempty cs) (raw_all cs) ∷ os) r)
unfolding raw raw_all
scan_children t ps no_children rest os r = unfold encode_all in refl
scan_children t ps (emplace_back cs (node u qs ds)) rest os r =
    let stack : List Open = open_node t ps true (raw_all cs) ∷ os in
    ap (λ l. scan l (at_plain (open_node t ps false no_children ∷ os) r)) (regroup cs u qs ds rest)
    ∙ (scan_children t ps cs (node_start ∷ u ∷ written u qs ds rest) os r
        ∙ (scan_start u t ps (written u qs ds rest) (is_nonempty cs) (raw_all cs) os r
            ∙ (scan-escape u qs [] (encode_all ds ++ (node_end ∷ rest)) stack r
                ∙ (scan_children u (escape qs) ds (node_end ∷ rest) stack r
                    ∙ scan_end u (escape qs) (is_nonempty ds) (raw_all ds) rest stack r))))

parse_tree-encode : (n : Node) → parse_tree (encode n) ≡ some (raw n)
unfolding parse_tree encode raw
parse_tree-encode (node t ps cs) =
    scan-escape t ps [] (encode_all cs ++ (node_end ∷ [])) [] none
    ∙ (scan_children t (escape ps) cs (node_end ∷ []) [] none
        ∙ (scan_end t (escape ps) (is_nonempty cs) (raw_all cs) [] [] none ∙ unfold scan in refl))

is_same_self : (xs : List ℕ) → is_same xs xs ≡ true
unfolding is_same
is_same_self [] = refl
is_same_self (x ∷ xs) = simp (==_self x) (is_same_self xs)

-- A file that has the accepted identifier, then any tree of nodes as the format writes it, loads as that
-- tree, unless it has only the seven bytes that the constructor refuses.
pub load-encode :
    (i0 i1 i2 i3 : ℕ) (n : Node)
    → 3 < length (encode n)
    → load (i0 ∷ i1 ∷ i2 ∷ i3 ∷ []) (i0 ∷ i1 ∷ i2 ∷ i3 ∷ encode n) ≡ some (raw n)
unfolding load
load-encode i0 i1 i2 i3 n h =
    simp (small, is_same_self (i0 ∷ i1 ∷ i2 ∷ i3 ∷ [])) (parse_tree-encode n)
  where
    small : leb (length (i0 ∷ i1 ∷ i2 ∷ i3 ∷ encode n)) 7 ≡ false
    small = ground (arith, h)

and_false : (b : Bool) → (b && false) ≡ false
and_false true = refl
and_false false = refl

unescape-escape : (ps : List ℕ) → unescape false (escape ps) ≡ ps
unfolding unescape escape
unescape-escape [] = refl
unescape-escape (b ∷ ps) = elim (Bool-cases (leb 253 b)) [
  | inl h ↦ simp (h, and_false (b == 253)) (ap (λ l. b ∷ l) (unescape-escape ps))
  | inr h ↦ simp (h, ==_ne b 253 (ground arith)) (ap (λ l. b ∷ l) (unescape-escape ps))
]

get_props-unescape :
    (t : ℕ) (bs : List ℕ) (cs : Children)
    → get_props (node t bs cs) ≡ (if is_nil bs then none else some (unescape false bs))
unfolding get_props
get_props-unescape t [] cs = refl
get_props-unescape t (b ∷ bs) cs = refl

is_nil-escape : (ps : List ℕ) → is_nil (escape ps) ≡ is_nil ps
unfolding escape
is_nil-escape [] = refl
is_nil-escape (b ∷ ps) = elim (Bool-cases (leb 253 b)) [ inl h ↦ simp h refl | inr h ↦ simp h refl ]

-- The properties of a loaded node are those that were written, unless it has none, in which case there is
-- nothing to read.
pub get_props-raw :
    (t : ℕ) (ps : List ℕ) (cs : Children)
    → get_props (raw (node t ps cs)) ≡ (if is_nil ps then none else some ps)
unfolding raw
get_props-raw t ps cs =
    get_props-unescape t (escape ps) (raw_all cs) ∙ simp (is_nil-escape ps, unescape-escape ps) refl

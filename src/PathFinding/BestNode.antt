-- ===== src/PathFinding/BestNode.antt =====
-- The node that the search goes on with (src/map.cpp).
use infernum_data_pack.Base.{
  ℕ, zero, suc, ◌+◌, ◌≤◌, ◌<◌, ◌≡◌, refl, sym, subst, true, Option, none, some, ◌==◌, ◌&&◌, ltb,
  arith, Bool-cases, inl, inr,
}
use infernum_data_pack.PathFinding.{AStarNodes, largest, scan_nodes, get_best_node}

-- Of the first `n` nodes, the best one is open and no open node costs less; without a best one, no open
-- node costs less than the largest number.
unfoldable pub IsBest : AStarNodes → ℕ → Option ℕ → Type 0
IsBest a n none = (j : ℕ) → j < n → a.open_nodes j ≡ true → largest ≤ (a.nodes j).f
IsBest a n (some k) =
    (k < n)
    × (a.open_nodes k ≡ true)
    × ((j : ℕ) → j < n → a.open_nodes j ≡ true → (a.nodes k).f ≤ (a.nodes j).f)

-- What the loop holds on to.
Bound : AStarNodes → ℕ → ℕ → Type 0
Bound a n c = (j : ℕ) → j < n → a.open_nodes j ≡ true → c ≤ (a.nodes j).f

Holds : AStarNodes → ℕ → ℕ → Option ℕ → Type 0
Holds a n c none = (c ≡ largest) × Bound a n c
Holds a n c (some k) = (k < n) × (a.open_nodes k ≡ true) × (c ≡ (a.nodes k).f) × Bound a n c

next-Bound :
    (a : AStarNodes) (i c d : ℕ)
    → Bound a i c
    → d ≤ c
    → (a.open_nodes i ≡ true → d ≤ (a.nodes i).f)
    → Bound a (i + 1) d
unfolding Bound
next-Bound a i c d h l k j q o = elim (Bool-cases (j == i)) [
  | inl e ↦ at_end (ground (arith, e)) o
  | inr e ↦ omega (arith, h j (ground (arith, e, q)) o, l)
]
  where
    at_end : j ≡ i → a.open_nodes j ≡ true → d ≤ (a.nodes j).f
    at_end e p = subst (λ m. a.open_nodes m ≡ true → d ≤ (a.nodes m).f) (sym e) k p

take-Holds :
    (a : AStarNodes) (i c : ℕ)
    → Bound a i c
    → a.open_nodes i ≡ true
    → (a.nodes i).f < c
    → Holds a (i + 1) (a.nodes i).f (some i)
unfolding Holds
take-Holds a i c h o l =
    (omega arith, o, refl, next-Bound a i c (a.nodes i).f h (omega (arith, l)) (λ p. omega arith))

pass-Holds :
    (a : AStarNodes) (i c : ℕ) (b : Option ℕ)
    → (a.open_nodes i ≡ true → c ≤ (a.nodes i).f)
    → Holds a i c b
    → Holds a (i + 1) c b
unfolding Holds
pass-Holds a i c none k h = (h.0, next-Bound a i c c h.1 (omega arith) k)
pass-Holds a i c (some m) k h =
    (omega (arith, h.0), h.1, h.2, next-Bound a i c c h.3 (omega arith) k)

Holds-Bound : (a : AStarNodes) (i c : ℕ) (b : Option ℕ) → Holds a i c b → Bound a i c
unfolding Holds
Holds-Bound a i c none h = h.1
Holds-Bound a i c (some m) h = h.3

Holds-IsBest : (a : AStarNodes) (i c : ℕ) (b : Option ℕ) → Holds a i c b → IsBest a i b
unfolding Holds IsBest Bound
Holds-IsBest a i c none h = λ j q o. subst (λ d. d ≤ (a.nodes j).f) h.0 (h.1 j q o)
Holds-IsBest a i c (some m) h = (h.0, h.1, λ j q o. subst (λ d. d ≤ (a.nodes j).f) h.2 (h.3 j q o))

scan_nodes-IsBest :
    (n i m : ℕ) (a : AStarNodes) (c : ℕ) (b : Option ℕ)
    → i + n ≡ m
    → Holds a i c b
    → IsBest a m (scan_nodes n i a c b)
unfolding scan_nodes
scan_nodes-IsBest zero i m a c b q h =
    let e : i ≡ m = omega (arith, q) in subst (λ k. IsBest a k b) e (Holds-IsBest a i c b h)
scan_nodes-IsBest (suc n) i m a c b q h =
    elim (Bool-cases (a.open_nodes i && ltb (a.nodes i).f c)) [
      | inl e ↦ simp e (
          scan_nodes-IsBest n (i + 1) m a (a.nodes i).f (some i) (omega (arith, q))
            (take-Holds a i c (Holds-Bound a i c b h) (ground (arith, e)) (ground (arith, e))))
      | inr e ↦ simp e (
          scan_nodes-IsBest n (i + 1) m a c b (omega (arith, q))
            (pass-Holds a i c b (λ o. ground (arith, e, o)) h))
    ]

-- The node that the search goes on with is an open one, and no other open node costs less. If there is
-- none, every open node costs as much as the largest number of 32 bits.
pub get_best_node-IsBest : (a : AStarNodes) → IsBest a a.cur_node (get_best_node a)
unfolding get_best_node Holds Bound
get_best_node-IsBest a =
    scan_nodes-IsBest a.cur_node 0 a.cur_node a largest none (omega arith)
      (refl, λ j q o. absurd (omega (arith, q)))

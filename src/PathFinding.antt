-- ===== src/PathFinding.antt =====
-- The nodes of the path search: `AStarNodes` of src/map.cpp and src/map.h. Nodes are known by their index;
-- costs are not negative.
pub mod BestNode
use infernum_data_pack.Base.{
  ℕ, zero, suc, ◌+◌, ◌-◌, ◌*◌, ◌%◌, Bool, true, false, not, Option, none, some, ◌==◌, ◌&&◌, ltb,
  leb, if◌then◌else◌,
}

pub record AStarNode : Type 0 where
  pub parent : Option ℕ
  pub f : ℕ
  pub x : ℕ
  pub y : ℕ

-- `nodeTable` maps `(x << 16) | y`, that is the two coordinates of 16 bits, to a node.
pub record AStarNodes : Type 0 where
  pub nodes : ℕ → AStarNode
  pub open_nodes : ℕ → Bool
  pub node_table : ℕ → ℕ → Option ℕ
  pub cur_node : ℕ
  -- How many nodes are closed: only a closed node is opened again, so that this `int_fast32_t` does not go
  -- below zero.
  pub closed_nodes : ℕ

abbrev pub max_nodes : ℕ
max_nodes = 512

-- `std::numeric_limits<int32_t>::max()`
abbrev pub largest : ℕ
largest = 2147483647

abbrev pub write {ℓ} : {A : Type ℓ} → (ℕ → A) → ℕ → A → ℕ → A
write g i v j = if i == j then v else g j

abbrev pub write_at : (ℕ → ℕ → Option ℕ) → ℕ → ℕ → ℕ → ℕ → ℕ → Option ℕ
write_at g x y i u v = if x == u && y == v then some i else g u v

-- The constructor
unfoldable pub start_nodes : ℕ → ℕ → AStarNodes
start_nodes x y = record {
  nodes = λ i. record {
    parent = none;
    f = 0;
    x = if i == 0 then x else 0;
    y = if i == 0 then y else 0;
  };
  open_nodes = λ i. i == 0;
  node_table = write_at (λ u v. none) x y 0;
  cur_node = 1;
  closed_nodes = 0;
}

unfoldable pub create_open_node : Option ℕ → ℕ → ℕ → ℕ → AStarNodes → AStarNodes × Option ℕ
create_open_node parent x y f a = if leb max_nodes a.cur_node then (a, none) else (
  record a {
    nodes = write a.nodes a.cur_node (record { parent = parent; f = f; x = x; y = y });
    open_nodes = write a.open_nodes a.cur_node true;
    node_table = write_at a.node_table x y a.cur_node;
    cur_node = a.cur_node + 1;
  },
  some a.cur_node,
)

-- The loop of `getBestNode`, with `n` nodes to go from `i`.
unfoldable pub scan_nodes : ℕ → ℕ → AStarNodes → ℕ → Option ℕ → Option ℕ
scan_nodes zero i a best_f best = best
scan_nodes (suc n) i a best_f best =
    let taken = scan_nodes n (i + 1) a (a.nodes i).f (some i) in
    let passed = scan_nodes n (i + 1) a best_f best in
    if a.open_nodes i && ltb (a.nodes i).f best_f then taken else passed

unfoldable pub get_best_node : AStarNodes → Option ℕ
unfolding scan_nodes
get_best_node a = scan_nodes a.cur_node 0 a largest none

unfoldable pub close_node : ℕ → AStarNodes → AStarNodes
close_node i a = record a {
  open_nodes = write a.open_nodes i false;
  closed_nodes = a.closed_nodes + 1;
}

unfoldable pub open_node : ℕ → AStarNodes → AStarNodes
open_node i a =
    if a.open_nodes i
    then a
    else record a { open_nodes = write a.open_nodes i true; closed_nodes = a.closed_nodes - 1 }

unfoldable pub get_node_by_position : ℕ → ℕ → AStarNodes → Option ℕ
get_node_by_position x y a = a.node_table x y

-- ===== src/Tree/Shape.antt =====
-- The passes of validateTreeIntegrity (internal/application/ai_tree_integrity.go) that look at the
-- nodes and at their parents: the index of the nodes, the check of the parents and that of the
-- chains. Their lists are unique and without blank identifiers, as in the code, which also sorts
-- them. A node has the fields that these passes read.
use deciscope_api.Base.{
  String, ℕ, zero, suc, ◌+◌, Bool, true, false, not, ◌||◌, none, some, List, [], ◌∷◌, ◌++◌, Dict,
  lookup, insert, str_eq, is_blank, trim, if◌then◌else◌, ltb, length, any,
}

pub record TreeNode : Type 0 where
  pub id : String
  pub kind : String
  pub parent_id : String

abbrev pub root_id : String
root_id = "root"

abbrev pub hard_max_depth : ℕ
hard_max_depth = 5

abbrev pub has_id : String → List String → Bool
has_id id ids = any (λ i. str_eq i id) ids

-- The new identifiers, after those that were seen.
unfoldable pub unique_ids : List String → List String → List String
unique_ids seen [] = []
unique_ids seen (value ∷ values) =
    let id = trim value in
    let skipped = is_blank id || has_id id seen in
    let others = unique_ids (if skipped then seen else id ∷ seen) values in
    if skipped then others else id ∷ others

unfoldable pub unique_nonempty_ids : List String → List String
unfolding unique_ids
unique_nonempty_ids ids = unique_ids [] ids

pub record Index : Type 0 where
  pub root_count : ℕ
  pub duplicate_ids : List String
  pub collisions : List String
  pub nodes : Dict TreeNode

-- A node after the first one with its identifier is only reported.
unfoldable pub index_node : TreeNode → Index → Index
index_node n x =
    let id = trim n.id in
    let roots = if str_eq id root_id then x.root_count + 1 else x.root_count in
    elim (lookup id x.nodes) [
      | some first ↦ record x {
        root_count = roots;
        duplicate_ids = x.duplicate_ids ++ id ∷ [];
        collisions = if str_eq first.kind n.kind then x.collisions else x.collisions ++ id ∷ [];
      }
      | none ↦ record x { root_count = roots; nodes = insert id n x.nodes }
    ]

unfoldable pub index_nodes : List TreeNode → Index → Index
unfolding index_node
index_nodes [] x = x
index_nodes (n ∷ ns) x = index_nodes ns (index_node n x)

unfoldable pub empty_index : Index
empty_index = record { root_count = 0; duplicate_ids = []; collisions = []; nodes = [] }

pub data Fault : Type 0 where
  invalid_parent_kind self_parent orphan root_direct_detail : Fault

unfoldable pub same_fault : Fault → Fault → Bool
same_fault invalid_parent_kind invalid_parent_kind = true
same_fault self_parent self_parent = true
same_fault orphan orphan = true
same_fault root_direct_detail root_direct_detail = true
same_fault _ _ = false

abbrev pub is_branch : String → Bool
is_branch kind = str_eq kind "topic" || str_eq kind "group"

unfoldable pub kind_faults : TreeNode → String → List Fault
kind_faults n parent_kind =
    if str_eq n.kind "topic"
    then if str_eq parent_kind "topic" then [] else invalid_parent_kind ∷ []
    else if str_eq n.kind "group"
    then if is_branch parent_kind then [] else invalid_parent_kind ∷ []
    else (if str_eq n.parent_id root_id then root_direct_detail ∷ [] else [])
      ++ (if is_branch parent_kind then [] else invalid_parent_kind ∷ [])

unfoldable pub parent_faults : Dict TreeNode → String → TreeNode → List Fault
unfolding kind_faults
parent_faults nodes id n =
    if str_eq id root_id
    then if not (is_blank n.parent_id) || not (str_eq n.kind "topic")
      then invalid_parent_kind ∷ []
      else []
    else if str_eq n.parent_id id
    then self_parent ∷ []
    else if is_blank n.parent_id
    then orphan ∷ []
    else elim (lookup n.parent_id nodes) [
      | none ↦ orphan ∷ []
      | some parent ↦ kind_faults n parent.kind
    ]

-- The nodes with a fault.
unfoldable pub fault_ids : Dict TreeNode → Fault → Dict TreeNode → List String
unfolding parent_faults same_fault
fault_ids nodes fault [] = []
fault_ids nodes fault ((id, n) ∷ others) =
    let rest = fault_ids nodes fault others in
    if any (same_fault fault) (parent_faults nodes id n) then id ∷ rest else rest

-- How the walk from a node to the root goes, with the number of nodes that it sees: it comes to a node
-- that it saw, or it stops at the root or at a parent that is missing.
pub data Walk : Type 0 where
  looped : ℕ → Walk
  stopped : ℕ → Walk
  running : Walk

unfoldable pub walk : Dict TreeNode → ℕ → List String → String → Walk
walk nodes zero seen current = running
walk nodes (suc fuel) seen current =
    let onward : Walk = elim (lookup current nodes) [
      | none ↦ stopped (suc (length seen))
      | some n ↦ walk nodes fuel (current ∷ seen) n.parent_id
    ] in
    if is_blank current || str_eq current root_id
    then stopped (length seen)
    else if has_id current seen
    then looped (length seen)
    else onward

-- Enough fuel: a walk sees each node once.
unfoldable pub walk_from : Dict TreeNode → String → Walk
unfolding walk
walk_from nodes start = walk nodes (suc (length nodes)) [] start

unfoldable pub is_cycle : Walk → Bool
is_cycle (looped n) = true
is_cycle _ = false

unfoldable pub is_deep : Walk → Bool
is_deep (looped n) = ltb hard_max_depth n
is_deep (stopped n) = ltb hard_max_depth n
is_deep running = false

unfoldable pub chain_ids : Dict TreeNode → (Walk → Bool) → Dict TreeNode → List String
unfolding walk_from
chain_ids nodes test [] = []
chain_ids nodes test ((id, n) ∷ others) =
    let rest = chain_ids nodes test others in if test (walk_from nodes id) then id ∷ rest else rest

pub record Shape : Type 0 where
  pub self_parents : List String
  pub orphans : List String
  pub cycles : List String
  pub invalid_parent_kinds : List String
  pub root_direct_details : List String
  pub hard_depths : List String

unfoldable pub shape_of : Dict TreeNode → Shape
unfolding unique_nonempty_ids fault_ids chain_ids is_cycle is_deep
shape_of nodes = record {
  self_parents = unique_nonempty_ids (fault_ids nodes self_parent nodes);
  orphans = unique_nonempty_ids (fault_ids nodes orphan nodes);
  cycles = unique_nonempty_ids (chain_ids nodes is_cycle nodes);
  invalid_parent_kinds = unique_nonempty_ids (fault_ids nodes invalid_parent_kind nodes);
  root_direct_details = unique_nonempty_ids (fault_ids nodes root_direct_detail nodes);
  hard_depths = unique_nonempty_ids (chain_ids nodes is_deep nodes);
}

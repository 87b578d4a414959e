-- ===== src/Scenarios/Trees.antt =====
-- Scenarios of the shape of the tree of a discussion.
use deciscope_api.Base.{ℕ, ◌≡◌, ◌≢◌, ◌≤◌, refl, some, List, [], ◌∷◌, lookup, insert, trim}
use deciscope_api.Tree.Shape.{
  TreeNode, index_nodes, empty_index, shape_of, walk_from, running, hard_max_depth,
}
use deciscope_api.Tree.Chains.{walk_from-stops}
use deciscope_api.Tree.Rooted.{IsUnreported, RootChain, shape-rooted}

abbrev root : TreeNode
root = record { id = "root"; kind = "topic"; parent_id = "" }

abbrev detail : TreeNode
detail = record { id = "d1"; kind = "risk"; parent_id = "t1" }

abbrev tree : List TreeNode
tree = root ∷ record { id = "t1"; kind = "topic"; parent_id = "root" } ∷ detail ∷ []

tree-IsUnreported : IsUnreported (shape_of (index_nodes tree empty_index).nodes)
unfolding shape_of index_nodes lookup empty_index insert trim
tree-IsUnreported = record {
  self_parents = refl;
  orphans = refl;
  cycles = refl;
  invalid_parent_kinds = refl;
  root_direct_details = refl;
  hard_depths = refl;
}

detail_found : lookup "d1" (index_nodes tree empty_index).nodes ≡ some detail
unfolding lookup index_nodes empty_index insert trim
detail_found = refl

shape-rooted_example :
    (k : ℕ) × RootChain (index_nodes tree empty_index).nodes "d1" k × (k ≤ hard_max_depth)
shape-rooted_example = shape-rooted tree tree-IsUnreported "d1" detail detail_found refl

walk_from-stops_example : walk_from (index_nodes tree empty_index).nodes "d1" ≢ running
walk_from-stops_example = walk_from-stops (index_nodes tree empty_index).nodes "d1"

-- A node without an identifier whose parent is missing: the lists drop its blank identifier.
blank_orphan :
    (shape_of
      (index_nodes
        (root ∷ record { id = ""; kind = "risk"; parent_id = "missing" } ∷ [])
        empty_index).nodes).orphans
    ≡ []
unfolding shape_of index_nodes lookup empty_index insert trim
blank_orphan = refl

-- ===== src/Tree/Rooted.antt =====
-- What the shape of a tree says when nothing is reported
-- (internal/application/ai_tree_integrity.go).
use deciscope_api.Base.{
  String, ℕ, zero, suc, ◌+◌, ◌≤◌, ◌≡◌, refl, sym, ap, ◌∙◌, subst, Bool, true, false, not, ◌&&◌,
  ◌||◌, some, List, [], ◌∷◌, Dict, lookup, lookup-insert, str_eq, eq_iff, is_blank, trim,
  trim-twice, if◌then◌else◌, if-case, if-false, Bool-cases, inl, inr, elim-case, length, any, arith,
}
use deciscope_api.Tree.Shape.{
  TreeNode, root_id, hard_max_depth, has_id, unique_nonempty_ids, Index, index_node, index_nodes,
  empty_index, Fault, invalid_parent_kind, self_parent, orphan, root_direct_detail, same_fault,
  is_branch, kind_faults, parent_faults, fault_ids, Walk, looped, stopped, running, walk, walk_from,
  is_cycle, is_deep, Shape, shape_of,
}
use deciscope_api.Tree.Chains.{walk_from-stops}
use deciscope_api.Tree.Reported.{fault-none, chain-none}

-- The kinds that may stand under each other: topics under topics, groups and details under topics and
-- groups, and no detail under the root.
abbrev pub fits : TreeNode → TreeNode → Bool
fits n parent =
    if str_eq n.kind "topic"
    then str_eq parent.kind "topic"
    else is_branch parent.kind && (str_eq n.kind "group" || not (str_eq n.parent_id root_id))

-- The chain of parents from a node to the root, with the number of its steps.
module _ (nodes : Dict TreeNode) where
  pub data RootChain : String → ℕ → Type 0 where
    at_root : RootChain root_id 0
    to_parent :
        (id : String) (n parent : TreeNode) (steps : ℕ)
        → lookup id nodes ≡ some n
        → lookup n.parent_id nodes ≡ some parent
        → fits n parent ≡ true
        → RootChain n.parent_id steps
        → RootChain id (suc steps)

-- The keys are the trimmed identifiers.
abbrev IsTrimmed : Dict TreeNode → Type 0
IsTrimmed nodes = (id : String) (n : TreeNode) → lookup id nodes ≡ some n → trim id ≡ id

index_node-IsTrimmed :
    (n : TreeNode) (x : Index) → IsTrimmed x.nodes → IsTrimmed (index_node n x).nodes
unfolding index_node
index_node-IsTrimmed n x h =
    elim-case (λ (y : Index). IsTrimmed y.nodes) (lookup (trim n.id) x.nodes) _ _
      (λ _ id m e.
        let found = lookup-insert (trim n.id) id n x.nodes in
        elim (Bool-cases (str_eq (trim n.id) id)) [
          | inl q ↦
              let same = (eq_iff (trim n.id) id).0 q in ap trim (sym same) ∙ trim-twice n.id ∙ same
          | inr q ↦ h id m (sym (found ∙ if-false _ _ _ q) ∙ e)
        ])
      (λ first _. h)

index_nodes-IsTrimmed :
    (ns : List TreeNode) (x : Index) → IsTrimmed x.nodes → IsTrimmed (index_nodes ns x).nodes
unfolding index_nodes
index_nodes-IsTrimmed [] x h = h
index_nodes-IsTrimmed (n ∷ ns) x h =
    index_nodes-IsTrimmed ns (index_node n x) (index_node-IsTrimmed n x h)

no_faults : (fs : List Fault) → ((f : Fault) → any (same_fault f) fs ≡ false) → fs ≡ []
unfolding same_fault
no_faults [] h = refl
no_faults (invalid_parent_kind ∷ fs) h = let q = h invalid_parent_kind in cc
no_faults (self_parent ∷ fs) h = let q = h self_parent in cc
no_faults (orphan ∷ fs) h = let q = h orphan in cc
no_faults (root_direct_detail ∷ fs) h = let q = h root_direct_detail in cc

kind_faults-fits : (n parent : TreeNode) → kind_faults n parent.kind ≡ [] → fits n parent ≡ true
unfolding kind_faults
kind_faults-fits n parent e = ground (arith, e)

-- Nothing is reported of the parents and of the chains.
pub record IsUnreported (s : Shape) : Type 0 where
  pub self_parents : s.self_parents ≡ []
  pub orphans : s.orphans ≡ []
  pub cycles : s.cycles ≡ []
  pub invalid_parent_kinds : s.invalid_parent_kinds ≡ []
  pub root_direct_details : s.root_direct_details ≡ []
  pub hard_depths : s.hard_depths ≡ []

module _ (nodes : Dict TreeNode) (trimmed : IsTrimmed nodes)
    (sound : IsUnreported (shape_of nodes)) where
  parent_faults-nil :
      (id : String) (n : TreeNode)
      → lookup id nodes ≡ some n
      → is_blank id ≡ false
      → parent_faults nodes id n ≡ []
  unfolding shape_of
  parent_faults-nil id n e named = no_faults (parent_faults nodes id n) (λ f.
      fault-none nodes id n e (trimmed id n e) named f
        (elim f as (λ k. unique_nonempty_ids (fault_ids nodes k nodes) ≡ []) [
          | invalid_parent_kind ↦ sound.invalid_parent_kinds
          | self_parent ↦ sound.self_parents
          | orphan ↦ sound.orphans
          | root_direct_detail ↦ sound.root_direct_details
        ]))

  -- The parent of a node that is not the root.
  parent_of :
      (id : String) (n : TreeNode)
      → lookup id nodes ≡ some n
      → is_blank id ≡ false
      → str_eq id root_id ≡ false
      → (is_blank n.parent_id ≡ false)
        × ((p : TreeNode) × (lookup n.parent_id nodes ≡ some p) × (fits n p ≡ true))
  unfolding parent_faults
  parent_of id n e named inner =
      let faults = parent_faults-nil id n e named in
      let P = λ (fs : List Fault).
        fs ≡ []
        → (is_blank n.parent_id ≡ false)
          × ((p : TreeNode) × (lookup n.parent_id nodes ≡ some p) × (fits n p ≡ true)) in
      if-case P (str_eq id root_id) _ _ (λ q _. absurd (ground (arith, q, inner)))
        (λ _.
          if-case P (str_eq n.parent_id id) _ _ (λ _ q. cc)
            (λ _.
              if-case P (is_blank n.parent_id) _ _ (λ _ q. cc)
                (λ b.
                  elim-case P (lookup n.parent_id nodes) _ _ (λ _ q. cc)
                    (λ p found q. (b, (p, found, kind_faults-fits n p q))))))
        faults

  walk-RootChain :
      (fuel : ℕ) (seen : List String) (id : String) (n : TreeNode) (m : ℕ)
      → lookup id nodes ≡ some n
      → is_blank id ≡ false
      → walk nodes fuel seen id ≡ stopped m
      → (k : ℕ) × RootChain nodes id k × (length seen + k ≡ m)
  unfolding walk
  walk-RootChain zero seen id n m e named w = cc
  walk-RootChain (suc fuel) seen id n m e named w =
      let P =
        λ (w : Walk). w ≡ stopped m → (k : ℕ) × RootChain nodes id k × (length seen + k ≡ m) in
      if-case P (is_blank id || str_eq id root_id) _ _
        (λ q stop.
          let at = sym ((eq_iff id root_id).0 (ground (arith, q, named))) in
          let count : length seen ≡ m = cc in
          (0, subst (λ i. RootChain nodes i 0) at at_root, omega (arith, count)))
        (λ inner.
          if-case P (has_id id seen) _ _ (λ _ q. cc)
            (λ _.
              elim-case P (lookup id nodes) _ _
                (λ none_found _. absurd (let a = sym e ∙ none_found in cc))
                (λ o found onward.
                  let (b, (p, above, fit)) = parent_of id o found named (ground (arith, inner)) in
                  let (k, c, count) =
                    walk-RootChain fuel (id ∷ seen) o.parent_id p m above b onward in
                  (suc k, to_parent id o p k found above fit c, omega (arith, count)))))
        w

  rooted :
      (id : String) (n : TreeNode)
      → lookup id nodes ≡ some n
      → is_blank id ≡ false
      → (k : ℕ) × RootChain nodes id k × (k ≤ hard_max_depth)
  unfolding walk_from shape_of is_cycle is_deep
  rooted id n e named =
      let acyclic = chain-none nodes id n e (trimmed id n e) named is_cycle sound.cycles in
      let shallow = chain-none nodes id n e (trimmed id n e) named is_deep sound.hard_depths in
      let P = λ (w : Walk).
        walk_from nodes id ≡ w
        → is_cycle w ≡ false
        → is_deep w ≡ false
        → (k : ℕ) × RootChain nodes id k × (k ≤ hard_max_depth) in
      let by_walk : (w : Walk) → P w = λ w. elim w as P [
        | looped m ↦ λ _ c d. cc
        | running ↦ λ r c d. absurd (walk_from-stops nodes id r)
        | stopped m ↦ λ r c d.
            let (k, chain, count) = walk-RootChain (suc (length nodes)) [] id n m e named r in
            (k, chain, ground (arith, count, d))
      ] in
      by_walk (walk_from nodes id) refl acyclic shallow

-- In a tree of whose parents and chains nothing is reported, each node with an identifier is below the
-- root: its parents lead there in at most five steps, each to a node whose kind may have it as a child.
pub shape-rooted :
    (ns : List TreeNode)
    → IsUnreported (shape_of (index_nodes ns empty_index).nodes)
    → (id : String) (n : TreeNode) → lookup id (index_nodes ns empty_index).nodes ≡ some n
    → is_blank id ≡ false
    → (k : ℕ) × RootChain (index_nodes ns empty_index).nodes id k × (k ≤ hard_max_depth)
unfolding empty_index lookup
shape-rooted ns sound id n =
    rooted (index_nodes ns empty_index).nodes (index_nodes-IsTrimmed ns empty_index (λ id n e. cc))
      sound id n

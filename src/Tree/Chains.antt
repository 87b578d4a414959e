-- ===== src/Tree/Chains.antt =====
-- The walks from a node to the root (internal/application/ai_tree_integrity.go).
use deciscope_api.Base.{
  String, ℕ, zero, suc, ◌+◌, ◌≤◌, ◌<◌, ◌≡◌, ◌≢◌, false, ◌||◌, some, List, [], ◌∷◌, Dict, lookup,
  remove, lookup-remove, str_eq, eq_iff, is_blank, if-case, elim-case, length, arith,
}
use deciscope_api.Tree.Shape.{TreeNode, root_id, has_id, Walk, stopped, running, walk, walk_from}

-- Different identifiers of nodes.
abbrev AreNodes : Dict TreeNode → List String → Type 0
AreNodes nodes [] = Unit
AreNodes nodes (id ∷ ids) =
    ((n : TreeNode) × (lookup id nodes ≡ some n)) × (has_id id ids ≡ false) × AreNodes nodes ids

length-remove-le : (id : String) (nodes : Dict TreeNode) → length (remove id nodes) ≤ length nodes
unfolding remove
length-remove-le id [] = omega arith
length-remove-le id ((k, n) ∷ nodes) =
    if-case (λ d. length d ≤ suc (length nodes)) (str_eq k id) (remove id nodes)
      ((k, n) ∷ remove id nodes) (λ _. omega (arith, length-remove-le id nodes))
      (λ _. omega (arith, length-remove-le id nodes))

length-remove :
    (id : String) (nodes : Dict TreeNode) (n : TreeNode)
    → lookup id nodes ≡ some n
    → suc (length (remove id nodes)) ≤ length nodes
unfolding remove lookup
length-remove id [] n e = cc
length-remove id ((k, m) ∷ nodes) n e =
    if-case (λ d. suc (length d) ≤ suc (length nodes)) (str_eq k id) (remove id nodes)
      ((k, m) ∷ remove id nodes) (λ _. omega (arith, length-remove-le id nodes))
      (λ q. omega (arith, length-remove id nodes n (ground (arith, e, q))))

AreNodes-remove :
    (nodes : Dict TreeNode) (id : String) (ids : List String)
    → has_id id ids ≡ false
    → AreNodes nodes ids
    → AreNodes (remove id nodes) ids
AreNodes-remove nodes id [] q h = tt
AreNodes-remove nodes id (i ∷ ids) q h =
    let other : str_eq id i ≡ false = ground (arith, q, eq_iff id i, eq_iff i id) in
    let found : lookup i (remove id nodes) ≡ some h.0.0 =
      ground (arith, lookup-remove id i nodes, other, h.0.1) in
    ((h.0.0, found), h.1, AreNodes-remove nodes id ids (ground (arith, q)) h.2)

-- There are at most as many as nodes.
AreNodes-le :
    (ids : List String) (nodes : Dict TreeNode) → AreNodes nodes ids → length ids ≤ length nodes
AreNodes-le [] nodes h = omega arith
AreNodes-le (id ∷ ids) nodes h =
    let fewer = AreNodes-le ids (remove id nodes) (AreNodes-remove nodes id ids h.1 h.2) in
    omega (arith, fewer, length-remove id nodes h.0.0 h.0.1)

walk-stops :
    (nodes : Dict TreeNode) (fuel : ℕ) (seen : List String) (current : String)
    → AreNodes nodes seen
    → length nodes < length seen + fuel
    → walk nodes fuel seen current ≢ running
unfolding walk
walk-stops nodes zero seen current h room =
    λ e. absurd (omega (arith, room, AreNodes-le seen nodes h))
walk-stops nodes (suc fuel) seen current h room =
    let P = λ (w : Walk). w ≢ running in
    if-case P (is_blank current || str_eq current root_id) _ _ (λ _ q. cc)
      (λ _.
        if-case P (has_id current seen) _ _ (λ _ q. cc)
          (λ new.
            elim-case P (lookup current nodes) (stopped (suc (length seen)))
              (λ n. walk nodes fuel (current ∷ seen) n.parent_id) (λ _ q. cc)
              (λ n e.
                walk-stops nodes fuel (current ∷ seen) n.parent_id ((n, e), new, h)
                  (omega (arith, room)))))

-- The walk from a node always ends: it needs at most one step more than there are nodes.
pub walk_from-stops : (nodes : Dict TreeNode) (start : String) → walk_from nodes start ≢ running
unfolding walk_from
walk_from-stops nodes start = walk-stops nodes (suc (length nodes)) [] start tt (omega arith)

-- ===== src/Tree/Reported.antt =====
-- A node with a fault is reported
-- (internal/application/ai_tree_integrity.go).
use deciscope_api.Base.{
  String, ◌≡◌, refl, sym, ap, ◌∙◌, Bool, true, false, ◌||◌, some, List, [], ◌∷◌, Dict, lookup,
  str_eq, eq_iff, is_blank, trim, if◌then◌else◌, if-true, if-false, Bool-cases, inl, inr, any,
  arith,
}
use deciscope_api.Tree.Shape.{
  TreeNode, has_id, unique_ids, unique_nonempty_ids, Fault, same_fault, parent_faults, fault_ids,
  Walk, walk_from, chain_ids,
}

unique_ids-skip :
    (skipped : Bool) (id : String) (ids : List String)
    → (let others = unique_ids (if skipped then [] else id ∷ []) ids in
        if skipped then others else id ∷ others)
      ≡ []
    → (skipped ≡ true) × (unique_ids [] ids ≡ [])
unique_ids-skip true id ids e = (refl, e)
unique_ids-skip false id ids e = cc

unique_ids-nil :
    (id : String) (ids : List String)
    → unique_ids [] ids ≡ []
    → has_id id ids ≡ true
    → is_blank (trim id) ≡ true
unfolding unique_ids
unique_ids-nil id [] e h = cc
unique_ids-nil id (i ∷ ids) e h =
    let (blank, rest) = unique_ids-skip (is_blank (trim i) || has_id (trim i) []) (trim i) ids e in
    elim (Bool-cases (str_eq i id)) [
      | inl same ↦ ap (λ j. is_blank (trim j)) (sym ((eq_iff i id).0 same)) ∙ ground (arith, blank)
      | inr other ↦ unique_ids-nil id ids rest (ground (arith, h, other))
    ]

kept-has :
    (test : Bool) (k id : String) (ids : List String)
    → has_id id ids ≡ true
    → has_id id (if test then k ∷ ids else ids) ≡ true
kept-has test k id ids h = ground (arith, h)

kept_self :
    (test : Bool) (k id : String) (ids : List String)
    → str_eq k id ≡ true
    → test ≡ true
    → has_id id (if test then k ∷ ids else ids) ≡ true
kept_self test k id ids e h = ground (arith, e, h)

module _ (nodes : Dict TreeNode) (id : String) (n : TreeNode) where
  fault_ids-has :
      (fault : Fault) (es : Dict TreeNode)
      → lookup id es ≡ some n
      → any (same_fault fault) (parent_faults nodes id n) ≡ true
      → has_id id (fault_ids nodes fault es) ≡ true
  unfolding fault_ids lookup
  fault_ids-has fault [] e h = cc
  fault_ids-has fault ((k, m) ∷ es) e h =
      let test = any (same_fault fault) (parent_faults nodes k m) in
      elim (Bool-cases (str_eq k id)) [
        | inl q ↦
            let same = (eq_iff k id).0 q in
            let first : m ≡ n =
              let f = sym (if-true (str_eq k id) (some m) (lookup id es) q) ∙ e in cc in
            kept_self test k id (fault_ids nodes fault es) q (
              ap (λ (p : String × TreeNode). any (same_fault fault) (parent_faults nodes p.0 p.1))
                (λ i. (same i, first i))
              ∙ h)
        | inr q ↦
            kept-has test k id (fault_ids nodes fault es)
              (fault_ids-has fault es (sym (if-false (str_eq k id) _ _ q) ∙ e) h)
      ]

  chain_ids-has :
      (test : Walk → Bool) (es : Dict TreeNode)
      → lookup id es ≡ some n
      → test (walk_from nodes id) ≡ true
      → has_id id (chain_ids nodes test es) ≡ true
  unfolding chain_ids lookup
  chain_ids-has test [] e h = cc
  chain_ids-has test ((k, m) ∷ es) e h =
      let kept = test (walk_from nodes k) in
      elim (Bool-cases (str_eq k id)) [
        | inl q ↦
            kept_self kept k id (chain_ids nodes test es) q
              (ap (λ j. test (walk_from nodes j)) ((eq_iff k id).0 q) ∙ h)
        | inr q ↦
            kept-has kept k id (chain_ids nodes test es)
              (chain_ids-has test es (sym (if-false (str_eq k id) _ _ q) ∙ e) h)
      ]

  module _ (found : lookup id nodes ≡ some n) (trimmed : trim id ≡ id)
      (named : is_blank id ≡ false) where
    nothing-has : (ids : List String) → unique_nonempty_ids ids ≡ [] → has_id id ids ≡ false
    unfolding unique_nonempty_ids
    nothing-has ids e = elim (Bool-cases (has_id id ids)) [
      | inl q ↦ absurd (
          let b = unique_ids-nil id ids e q in
          let c = ap is_blank trimmed in ground (arith, b, c, named))
      | inr q ↦ q
    ]

    pub fault-none :
        (fault : Fault)
        → unique_nonempty_ids (fault_ids nodes fault nodes) ≡ []
        → any (same_fault fault) (parent_faults nodes id n) ≡ false
    fault-none fault e = elim (Bool-cases (any (same_fault fault) (parent_faults nodes id n))) [
      | inl q ↦ absurd (
          let a = fault_ids-has fault nodes found q in
          let b = nothing-has _ e in ground (arith, a, b))
      | inr q ↦ q
    ]

    pub chain-none :
        (test : Walk → Bool)
        → unique_nonempty_ids (chain_ids nodes test nodes) ≡ []
        → test (walk_from nodes id) ≡ false
    chain-none test e = elim (Bool-cases (test (walk_from nodes id))) [
      | inl q ↦ absurd (
          let a = chain_ids-has test nodes found q in
          let b = nothing-has _ e in ground (arith, a, b))
      | inr q ↦ q
    ]

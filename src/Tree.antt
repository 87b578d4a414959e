-- ===== src/Tree.antt =====
-- The tree of a discussion and the check of its shape (internal/application/ai_tree_integrity.go).
pub mod Shape
pub mod Chains
pub mod Reported
pub mod Rooted

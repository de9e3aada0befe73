-- ===== src/Scenario/Semantics.antt =====
-- internal/scenario/semantics.go: whether a case's stimuli can have the outcome that its code
-- promises. Groups, windows and the eight patterns are in the children.
pub mod Expand
pub mod Windows
pub mod Spec
pub mod Groups
pub mod Reach
pub mod Ordered
pub mod Silence
pub mod Check

-- ===== src/Inference.antt =====
-- The inference guardian's operation (inference-contract/pdo/inference).
pub mod Classes
pub mod Image
pub mod Scoring
pub mod Operation

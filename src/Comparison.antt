-- ===== src/Comparison.antt =====
-- internal/comparison/internal: payloads are normalised and compared.
pub mod Json
pub mod Path
pub mod Differ
pub mod Compare
pub mod Document
pub mod Rules

-- ===== src/Model.antt =====
-- internal/model: the traffic that crosses a service's boundary, why a candidate was quarantined,
-- and what a mirror reports.
mod TrafficModel
mod DifferenceModel
mod QuarantineModel
mod StateModel
mod DivergenceModel
unfoldable pub use TrafficModel.*
unfoldable pub use DifferenceModel.*
unfoldable pub use QuarantineModel.*
unfoldable pub use StateModel.*
unfoldable pub use DivergenceModel.*

-- ===== src/Protocol.antt =====
-- internal/protocol: the pairing of reference and candidate requests, at ingress by request ID and
-- at egress by the hash of the request.
pub mod Arrivals
pub mod Queues
pub mod Exchanges
pub mod Egress
pub mod Responses
pub mod Ingress

-- ===== src/Server.antt =====
-- internal/server: the SPECTRE server, which keeps what mirrors report.
pub mod Storage
pub mod Wire
pub mod Service
pub mod Reporter

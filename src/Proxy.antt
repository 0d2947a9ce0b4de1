-- ===== src/Proxy.antt =====
-- internal/proxy: what admits candidate work, budgets shared memory, and counts requests.
pub mod Budget
pub mod Calls
pub mod Candidates

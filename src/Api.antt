-- ===== src/Api.antt =====
-- internal/api: who a request comes from and what it may do.
pub mod Access
pub mod Sessions
pub mod Zones
pub mod KeyRequests
pub mod Erasure
pub mod RateLimit
pub mod Trail
pub mod Reads
pub mod Signup
pub mod ExportRequests

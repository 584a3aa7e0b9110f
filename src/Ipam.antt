-- ===== src/Ipam.antt =====
-- The IPAM controller, staging/kos/pkg/controllers/ipam.
pub mod LockName
pub mod Locks
pub mod Cache
pub mod Owners
pub mod Analysis
pub mod AttachmentData
pub mod Pick
pub mod Placing
pub mod Processing
pub mod Notices
mod Tests

-- ===== src/Storage.antt =====
-- Local storage (src/storage).
pub mod Table
pub mod Db
pub mod Migrations
pub mod Records
pub mod Announcements
pub mod Tier2Limiter
pub mod Index
pub mod Sweep
pub mod Quota
pub mod Store

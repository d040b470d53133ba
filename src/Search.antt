-- ===== src/Search.antt =====
-- Search (src/search).
pub mod Cache
pub mod Tokens
pub mod Dates
pub mod Query
pub mod Matching
pub mod Scoring

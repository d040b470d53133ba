-- ===== src/Scraper.antt =====
-- The scraper (src/scraper).
pub mod Scheduler
pub mod Transforms
pub mod Job
pub mod Feed
pub mod Providers
pub mod Answers

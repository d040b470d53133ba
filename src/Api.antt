-- ===== src/Api.antt =====
-- The interfaces over HTTP (src/api).
pub mod Keys
pub mod Request
pub mod Response
pub mod Platform
pub mod Gateway
pub mod Local

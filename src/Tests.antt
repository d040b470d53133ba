-- ===== src/Tests.antt =====
-- Concrete parameters and runs of the model: a table, a codec and a small store.
mod Tables
mod Codec
mod Store
mod Trust
mod Limits
mod Search
mod Network
mod Index
mod Query
mod Jobs
mod Facade
mod Api
mod Stun
mod Platform
mod Local
mod Node
mod Setup

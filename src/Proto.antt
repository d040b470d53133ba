-- ===== src/Proto.antt =====
-- The wire protocol (src/proto).
pub mod MsgType
pub mod Frame
mod Tests

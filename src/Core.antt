-- ===== src/Core.antt =====
-- source/core: locks and the handle table.
pub mod Lock
pub mod Value
pub mod Handle

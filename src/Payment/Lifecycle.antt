-- ===== src/Payment/Lifecycle.antt =====
-- How payments move: along the trigger's graph, each in its own tenant, and only there.
pub mod Moves
pub mod Steps
pub mod Terminal

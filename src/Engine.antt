-- ===== src/Engine.antt =====
-- internal/engine: the buffer, the execution state and the filter registry.
pub mod Buffer
pub mod Registry
pub mod State
pub mod Stream
pub mod Exit
pub mod Run
mod Tests

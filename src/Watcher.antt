-- ===== src/Watcher.antt =====
-- components/system/src/btn-watcher.c
pub mod Canvas
pub mod Area
pub mod Screen
pub mod Card
pub mod Drawn
pub mod Layer
pub mod Overlay
pub mod Apps
pub mod State
pub mod Timers
pub mod Handler
pub mod Loop
pub mod Setup
mod Tests

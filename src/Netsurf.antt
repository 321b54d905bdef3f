-- ===== src/Netsurf.antt =====
-- components/netsurf/src/sdl_fb0_shim.c, the SDL library under NetSurf.
pub mod Events
pub mod Utf8
pub mod Layout
pub mod Draw
pub mod Update
pub mod Timers
pub mod Keyboard
pub mod Panel
pub mod Worker
pub mod Calls
mod Tests
mod CallsTests

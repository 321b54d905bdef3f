-- ===== src/PlatoShim.antt =====
-- components/system/src/plato_shim.c, the library preloaded into Plato.
pub mod Queue
pub mod Touch
pub mod Ioctl
pub mod Calls
pub mod Log
mod Tests
mod IoctlTests

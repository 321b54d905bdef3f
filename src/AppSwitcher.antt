-- ===== src/AppSwitcher.antt =====
-- components/system/src/app-switcher.c, the dialog that switches between the readers. Its drawing
-- routines are those of btn-watcher.c, word for word: Watcher.Canvas models both.
pub mod Buttons
pub mod Status
pub mod Dialog
pub mod Session
pub mod Touch
pub mod Main
mod Tests

-- ===== src/Common.antt =====
-- Data shared by the native components (components/common).
pub mod Font
pub mod FontCyrillic

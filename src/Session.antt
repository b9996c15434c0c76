-- ===== src/Session.antt =====
-- core/session_manager.c: so far the loading of a TA's image.
pub mod Image
pub mod Services

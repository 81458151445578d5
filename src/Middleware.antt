-- ===== src/Middleware.antt =====
-- The middlewares that transform what passes through them, or hold it back.
pub mod Hex

-- ===== src/Tasks/Tests.antt =====
-- x

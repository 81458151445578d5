-- ===== src/Core/Tests.antt =====
-- The client over two storages in memory, of which one may be broken, and the theorems at it.
mod World
mod Ordinary
mod Failing

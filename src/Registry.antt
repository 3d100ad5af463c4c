-- ===== src/Registry.antt =====
-- Which tasks and which queues a process knows.
pub mod Dumper
pub mod Items

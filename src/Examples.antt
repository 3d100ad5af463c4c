-- ===== src/Examples.antt =====
-- Concrete inputs: an in-memory database, and for each theorem with hypotheses an instance of it.
mod Memory
mod Fixtures
mod Attempts
mod Sending
mod Backfills
mod Clients
mod Loops
mod Rules

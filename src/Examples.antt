-- ===== src/Examples.antt =====
-- Concrete data, on which the definitions are run and the theorems applied.
mod Data
mod Caches
mod Sources
mod Databases
mod Feeds
mod Workers
mod Aggregates
mod Processes

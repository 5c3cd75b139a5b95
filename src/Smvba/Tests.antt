-- ===== src/Smvba/Tests.antt =====
-- The sMVBA node on concrete inputs.
mod Fixtures
mod Nodes
mod Counters
mod Instance
mod Races
mod Ends

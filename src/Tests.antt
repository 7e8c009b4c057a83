-- ===== src/Tests.antt =====
-- Runs of the model on small sections, which show that the hypotheses of the theorems can hold.
mod Fixtures
mod Sections
mod Searches
mod Writes
mod Interleavings
mod Readers
mod Systems
mod Sessions
mod Deliveries
mod Copies

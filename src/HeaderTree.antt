-- ===== src/HeaderTree.antt =====
-- observer/src/headertree.rs: the headers that the observer holds, those that it refused, and the
-- requests out for those that it misses.
pub mod Rejected
pub mod Recovery
pub mod Tree
pub mod Prune
pub mod Insert
pub mod Locator

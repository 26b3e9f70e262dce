-- ===== src/Book.antt =====
-- observer/src/addresses/book.rs: the address book, its outcomes, its eviction and the pick. The
-- two hash maps are association lists, and the float operations a parameter (`F32`).
pub mod Rng
pub mod Reservoir
pub mod Entry
pub mod State
pub mod Evict
pub mod Ingest
pub mod Outcomes
pub mod Allocate
pub mod Pick

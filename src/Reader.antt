-- ===== src/Reader.antt =====
-- packages/reader/src: what a mount answers from the entries of an index.
pub mod Order
pub mod Queries

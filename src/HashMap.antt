-- ===== src/HashMap.antt =====
-- myjql/src/hash_map.c: the free space map of a table, a directory of chains of blocks, one chain
-- for each size of free space.
pub mod Page
pub mod Insert
pub mod Pop
pub mod LowerBound
pub mod Init
pub mod Print
pub mod Pages

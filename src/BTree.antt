-- ===== src/BTree.antt =====
-- myjql/src/b_tree.c: the index, a tree of pages of at most 2 * DEGREE entries.
pub mod Node
pub mod Element
pub mod Search
pub mod Adjust
pub mod Move
pub mod Insert
pub mod Remove
pub mod Position
pub mod Lookup
pub mod Descend
pub mod Found
pub mod Keys
pub mod Print

-- ===== src/Str.antt =====
-- myjql/src/str.c and myjql/include/str.h: strings as chains of chunks in a table.
pub mod Chunk
pub mod Read
pub mod Write

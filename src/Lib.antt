-- ===== src/Lib.antt =====
-- A verification library of MyJQL: the key-value database under myjql/src and myjql/include, its server and
-- shell under myjql/main, and its client under myjql/driver.
--
-- The program keeps records in files of 128-byte pages. From the bottom up:
--   FileIo      myjql/src/file_io.c: open_file, close_file, read_page, write_page.
--   BufferPool  myjql/src/buffer_pool.c: eight slots that hold pages of one file, with reference
--               counts: init_buffer_pool, close_buffer_pool, get_page, update, release. What the
--               callers do through the pointer of get_page is `load` and `modify`.
--   Block       myjql/src/block.c: items in a page behind item ids: init_block, get_item, new_item,
--               delete_item, get_block_size.
--   HashMap     myjql/src/hash_map.c: the free space map, from free space to the addresses of blocks:
--               Page (the words of a page), Init, Insert, Pop, LowerBound.
--   Table       myjql/src/table.c: items by record id, over a pool of blocks and a free space map.
--   Str         myjql/src/str.c: strings as chains of chunks in a table: Chunk, Read, Write.
--   BTree       myjql/src/b_tree.c: the index: Node, Search, Element (InsertElement), Adjust (ReMove
--               and ReAdj), Move, Insert, Remove. The comparison is a parameter, as in the code.
--   MyJql       myjql/src/myjql.c: myjql_init, myjql_close, myjql_get, myjql_set, myjql_del over an
--               index, a table of records and a table of strings.
--   Net         the calls of a socket: recv and send of an int and of a text; Reliable.
--   Server      myjql/main/myjqlserver.c: InstanceThread, which reads requests and answers them from
--               the database that all threads share. Sessions has the protocol as relations
--               (Answered, Session), Threads the steps of several threads, Main the functions main,
--               CtrlHandler and exit_nicely as they are for Linux.
--   Client      myjql/driver/myjqlclient.cpp: the constructor, get, set, del and the destructor
--               of MyJQL::client.
--   Shell       myjql/main/myjqlshell.cpp: read_input, the commands of a line, and Loop, the loop of
--               main over the client.
-- Base has what they share: tests on numbers, lists, the 64-bit, 32-bit and 16-bit arithmetic of the
-- code, memory as bytes, and commands: functions from a state to a result with a new state, to
-- `fault` (undefined behaviour: a null pointer, an index outside of an array) or to `hang` (fuel
-- that ran out). Tests has concrete runs.
--
-- Names are those of the C code in snake case. The conventions:
--   * off_t and size_t are 64-bit patterns, int a 32-bit and short a 16-bit one, as natural numbers;
--     signed comparisons and conversions are written out. The page arithmetic of InsertElement and
--     its kin is on the counts of a node, which are below 2^31.
--   * A page has the type that its client reads it as: Block, Words (sixteen off_t) or BNode. The
--     control block of the index lies over the fields n and next of a node.
--   * A pointer of get_page is the number of the slot; reading it after release reads the slot.
--   * FILE is a parameter: what the two calls of fopen give (Opening), the page at each offset, the
--     offsets at which a seek, a read or a write fails, and what a failed read leaves of the page that
--     it reads into (torn). The theorems on the pool have a medium that does not fail.
--   * A memory that malloc returns is the parameter `garbage`; free is not modelled. The
--     functions that print return what they print (the Print modules); other messages are left out.
--   * The buffer that load_string fills has a size (Buffer), and a write behind its end is a fault:
--     size bytes in rid_ptr_row_cmp, 1025 in the server.
--   * strcmp returns 0 for equal strings; what it returns for others is a parameter (differ in Limits).
--   * An offset of an item in a block is at least 6, the end of the header; the number of items of a
--     block and its tail_ptr are not negative.
--   * Loops whose bound is in the data are recursion on it. Those that follow addresses in pages take
--     fuel: chains of the free space map and sizes (Fuel), the depth of the tree and the characters
--     of a string (Limits). A chain has at most as many blocks as the file has pages, and the sizes
--     that are tried end at max_size, 256.
--
-- A pool is seen through `view`, the page at each address whether it is in a slot or in the file.
-- BufferPool.Session is the interface for its clients: pages, reference counts and pointers, with
-- what get_page, load, modify and release do to them; BufferPool.Edits goes from the opening of a file
-- to its closing.
-- Str.Read.Chain says which characters a stored string has, and MyJql.Get what the two tables hold.
-- Block.Items says what a block holds at an index, with the invariant of a block; BTree.Lookup is the
-- search on the pages of an index without a pool, and BTree.Keys which rows a tree has.
-- The protocol is stated once, as the relation Session between requests, the bytes of the answers and
-- the database before and after, and is what both the server and the client are held to.
--
-- The sockets of the system are a parameter, Sockets: recv gives bytes or an error, send tells whether
-- it failed. Reliable is a connection that loses nothing, on which recv gets all the bytes that were
-- asked for when they are there; Ended is one whose other end is closed. A round of a thread is one
-- step of the threads together: it calls the database at most once, in the critical section, and shares
-- nothing else. The loops of the server and the shell take the number of rounds as fuel; a session
-- takes one for each request and one for the last.
--
-- The other calls of the system by main of the server are the parameter System. Its loop has no end; it
-- is run for a number of rounds.
--
-- Not modelled: the read of a record id through the key pointer at the start of b_tree_search, whose
-- value is never used (it goes behind the end of a key that is shorter than a RID); the branches for Windows of main, of its handler and of the constructor of the client.
-- Exceptions are values, and messages on the console of the server are left out. The programs under
-- myjql/test only call the library; myjql/save and myjql/save2 are earlier copies of the sources that
-- the build does not use; myjql/build is generated.
pub mod Base
pub mod FileIo
pub mod BufferPool
pub mod Block
pub mod HashMap
pub mod Table
pub mod Str
pub mod BTree
pub mod MyJql
pub mod Net
pub mod Server
pub mod Client
pub mod Shell
pub mod Tests

-- ===== src/Lib.antt =====
-- Garry, a transactional key-value store in C. This library models its storage engine, the files
-- src/*.c and include/garry/*.h of the repository, and proves what makes the parts correct.
--
-- The parts and how they meet. A key's versions are records of a slotted page (Page, for
-- src/slotted_page.c), written, searched and pruned by the version chain (Chain, for
-- src/version_chain.c and src/gc.c). Which versions a reader sees depends on the list of
-- transactions that the engine keeps (Txn, for the transaction list of src/transaction.c), and a
-- writer first takes the key's lock (Lock, for src/lock_table.c). Keys are tuples of components
-- behind length prefixes (Key, for src/key_encoding.c), whose components the hierarchical functions
-- find again (Subscript, for src/hierarchical.c), or readable strings cut at a delimiter (Split, for
-- src/keysplit.c). The entries of B-tree leaves are key-value records whose values are descriptors
-- of chains (Codec, for src/record_codec.c); their keys can be cut to separators and stored without
-- common prefixes (Compress, for src/btree_compression.c). Nodes keep their links in a metadata
-- record, are stored in and loaded from their pages through the pool, searched from the root, and extended in
-- memory (Node, for src/btree_node.c and src/btree_search.c). The first page of the file is the
-- database header (Header, for src/db_header.c). The pages store 32-bit words in little-endian order
-- (Endian, for src/util_endian.h). All pages are read and written through the buffer pool, which
-- keeps some of them in memory (Pool, for src/buffer_pool.c). Changes are logged before they are
-- made, and replayed after a crash (Wal, for src/wal_record.c, src/wal_log.c, src/wal_recovery.c and
-- src/wal_checkpoint.c).
--
-- How C is read. Byte memory is a function from offsets to bytes (Base.Buffer), so a statement about
-- the bytes outside a written range is a statement of memory safety. A garry_i32 is its two's
-- complement pattern below 2 ^ 32 where its sign matters, with signed comparison and wrapping sums
-- of Base.Word; elsewhere, for ids, counts and lengths that are not negative, it is a natural
-- number. A pointer with its length is the list of the bytes. A function that returns -1 or NULL
-- returns an Option, one that changes what a pointer names returns the new value.
--
-- Names. The C function garry_f is the definition f, a constant GARRY_X is x, a struct is a record
-- with the same fields. Where a loop body or a test is a definition of its own, its comment says
-- which.
--
-- Fuel. overflow_read runs on the length of the value as fuel: a round copies a byte at least, and
-- overflow_read-Holds shows that this is enough. count_from and unsplit_from run on the length of
-- the key, of which a round takes a byte at least; the theorems on keys of any number of components
-- hold with this fuel. The release of overflow pages runs on fuel too, since it does not end on a
-- cycle of pages. The search from the root runs on fuel: the height of the tree is enough
-- (leaf_find_search-Found). The loops of the recovery run on fuel; more of it than the log has bytes
-- is enough (wal_recover-records). All other loops are structural.
--
-- Bounds. Where the code writes into an array of fixed size, the model has what is written and not
-- what an overrun would hit, and the theorems carry the bound: an entry of a version fits its buffer
-- of 16384 bytes on pages of at most 16420 bytes, a node has at most four children, and ids of
-- transactions and the slots of their list stay below 2 ^ 31, from where on the arithmetic of C is
-- undefined. The buffer of an encoded key tuple, 256 bytes, is the caller's.
--
-- The file. A database file is what each page reads as, or a short read, and the set of the pages of
-- which a write succeeds; a write that fails is taken to leave the page as it was.
--
-- The log is an open file with a position, whose reads fail at its end only; the number of the bytes that the system takes of a record
-- is an argument of the append. The recovery calls the tree, the versions and the allocation of
-- chain pages through the interface Engine of Wal.Recovery.
--
-- Not modelled: the changes of the B-tree beyond single nodes, LZ4 and the storage operations above
-- them. The buffer pool enters the version chain as the function that gives the page of an id, which
-- is the view of Pool.Find. Memory allocation succeeds, but for the lock table, where it is an
-- argument. Locks and mutexes of the platform make each modelled operation one step.
pub mod Base
pub mod Endian
pub mod Page
pub mod Chain
pub mod Txn
pub mod Lock
pub mod Key
pub mod Subscript
pub mod Split
pub mod Compress
pub mod Codec
pub mod Header
pub mod Node
pub mod Pool
pub mod Wal

-- ===== src/Lib.antt =====
-- The core of cartridge-rs: a container file of 4096-byte pages, whose first page is a header, with
-- an allocator that hands out blocks of the file and a cache of pages. A Rust struct is a record, an
-- enum is a data type, and a method that changes its receiver takes the state last and returns the
-- new one beside its result. Numbers are natural numbers; where the code adds `u64` or `usize`, the
-- model adds modulo 2 ^ 64 (`add64`) unless the invariant bounds the sum.
--
-- Files and the code that each models:
--   Prelude        shared lists, bytes and tests; Prelude/Errors models src/core/error.rs
--   Header         src/core/header.rs; Header/Fuses has the S3 modes kept in the reserved bytes
--   Page           src/core/page.rs; SHA-256 is a parameter, a function from bytes to bytes
--   Allocator      src/core/allocator/mod.rs, the trait as a record of operations
--   Allocator/Bitmap   src/core/allocator/bitmap.rs; a word is the list of its 64 bits
--   Allocator/Extent   src/core/allocator/extent.rs; the BTreeMap is a list sorted by key
--   Allocator/Hybrid   src/core/allocator/hybrid.rs, which drives the other two
--   BufferPool     src/core/buffer_pool.rs, the adaptive replacement cache; BufferPool/Lru has the
--                  lists with their sets
--   Audit          src/core/audit/mod.rs; Audit/Ring has src/core/audit/ring_buffer.rs, whose write is
--                  two steps and whose other calls are one
--   Catalog        src/core/catalog/mod.rs and metadata.rs; the BTreeMap is a list sorted by path
--   Encryption     src/core/encryption.rs; the cipher of aes-gcm is a parameter with its two laws
--   Iam            src/core/iam: Iam/Pattern has pattern.rs, Iam/Policy policy.rs, Iam/Condition
--                  condition.rs (which the engine does not call), Iam/Engine engine.rs with the cache of
--                  cache.rs; the LruCache of lru is a parameter with its laws, f64 one without
--   Cartridge      src/core/cartridge.rs: Cartridge/State the struct, the policy, the audit log and the
--                  creation in memory, Cartridge/Content the pages (with raw pages of src/core/io.rs),
--                  Cartridge/Capacity growth, Cartridge/Files the operations on files and directories
--   Wal            src/core/wal.rs, the codes, the header, the slots and the entries of
--                  the write-ahead log
-- The children of a module hold its proofs, and those called Tests evaluate it on concrete inputs.
--
-- The hybrid allocator calls the bitmap for requests below 256 KiB and the extents for the others,
-- and then records the result on the other side; `Hybrid/Sync` states what it means that both sides
-- agree. A `Cartridge` owns a header, a hybrid allocator, a catalog and the cached pages; its file
-- operations check the policy through the engine, encrypt, grow the archive, allocate or free blocks,
-- write pages, update the catalog and copy the counter of the allocator to the header.
-- `Cartridge/Consistency` states what holds between them. The two clocks, the nonce, the hash of a
-- path and the JSON values are parameters. A method on `&self` that changes a cache behind a lock
-- returns the new state. The buffer pool holds pages of src/core/page.rs and is independent of the allocators.
--
-- Fuel: the loop of `ensure_capacity` has two units more than the limit on the blocks; each turn that
-- does not end it adds a block at least, so it never runs out (`Cartridge/Capacity/Growth`). The loop
-- of `maintain_ghost_lists` ends at its first test or never, so one unit is enough whenever any number
-- is. The search for a power of two has 63 units, and printing a number twenty, the digits of 2^64.
-- Every other loop is a recursion on the list, the word or the number of blocks it walks over.
--
-- Not modelled: floating-point scores and hit rates, the texts of error messages, the log messages,
-- errors of the operating system other than a read past the end of a file, the B-tree of
-- src/core/catalog/btree.rs (the catalog does not use it), opening, flushing and vacuuming an archive,
-- the operations of the write-ahead log's file, snapshots, the virtual file system, compression, manifests and
-- the thread that flushes the audit log.
pub mod Prelude
pub mod Header
pub mod Page
pub mod Allocator
pub mod BufferPool
pub mod Audit
pub mod Catalog
pub mod Encryption
pub mod Iam
pub mod Cartridge
pub mod Wal

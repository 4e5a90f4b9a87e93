-- ===== src/Log.antt =====
-- node/internal/log: the entry envelope and the hash-chained logs.
pub mod Entry
pub mod Pattern
pub mod Canonical
pub mod Encode
pub mod Base32
pub mod Identity
pub mod Crypto
pub mod Envelope
pub mod ChainKey
pub mod ThreadLog
pub mod Author
pub mod After
pub mod TotalOrder
pub mod SortedUnique
pub mod Admitted
pub mod Hashed
pub mod Insertion
pub mod Invariant
pub mod Admission
pub mod Appended
pub mod Hex
pub mod KeyText
pub mod Signed
pub mod LastEntry
pub mod FirstEntry
pub mod NextEntry
pub mod Authored

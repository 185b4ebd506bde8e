-- ===== src/Index.antt =====
-- src-old/lib and src-old/IndexNode, the in-memory index of the previous version: a filter, skip lists behind
-- it, and the thread that fills them.
pub mod BitMap
pub mod BloomFilter
pub mod Keys
pub mod SkipList
pub mod MemoryIndex
pub mod Generator
mod Tests

-- ===== src/DataNode.antt =====
-- src/dataNode, the storage node: requests flow from RegionServer through MitoEngine to the
-- RegionWorkers, and full memtables from these to the Flusher.
pub mod Exceptions
pub mod Text
pub mod Maps
pub mod Values
pub mod Memtable
pub mod Json
pub mod Region
pub mod Requests
pub mod Worker
pub mod Server
pub mod Engine
pub mod Node
pub mod Sst
pub mod Flusher

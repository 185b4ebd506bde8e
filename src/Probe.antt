-- ===== src/Probe.antt =====
-- src/probe, the packet capture: the part that links the packets of a flow, the buffer of blocks, and the
-- threads that write the blocks to the disk.
pub mod Aggregator
pub mod DataBlocks
pub mod DiskAgent
pub mod DiskManager
mod Tests

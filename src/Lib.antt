-- ===== src/Lib.antt =====
-- DiTrafficDatabase stores network traffic. This library models its data node (src/dataNode), the ring
-- that connects the node's threads (src/lib/pipeRing.hpp), the packet aggregator, the ring of blocks and
-- the disk threads of the probe (src/probe), and the bitmap, Bloom filter, skip lists and keys of the
-- previous version's index (src-old/lib).
--
-- A data node is a chain of threads. RegionServer reads lines of requests, numbers the requests and
-- sends them to MitoEngine; the engine gives each region's requests to one RegionWorker; a worker keeps
-- its regions' contexts, appends rows to their memtables, and hands a full memtable, with the region's
-- SST, to the Flusher. Each arrow is a PipeRing of pointers.
--
-- Common: Boolean tests, lists and machine words over the native numbers; Common.Bits has the lemmas on
--   masks.
-- PipeRing: src/lib/pipeRing.hpp. `create`, `put`, `get` are its constructor and methods, `slot` is
--   `real_pos`. A call is one step; a `put` that spins is the outcome `waiting`, and a division by
--   `capacity_ >> 3` = 0 is an outcome of its own. The constructor's loop has a counter of 32 bits; it takes
--   rounds, and is `looping` when they do not end it. PipeRing.Queue is the queue that the ring implements.
-- DataNode.Text, Maps, Exceptions, Json: strings, std::unordered_map, exceptions as values, and the
--   interface `Libraries` of nlohmann::json and of the opening of log files, a parameter of every definition
--   that parses or makes an SST.
-- DataNode.Values, Memtable: src/dataNode/dataNodeLib/memtable.hpp. Numbers of 64 bits wrap, by add64
--   and u64. Doubles are bit patterns, as nothing computes with them.
-- DataNode.Region, Requests: dataNodeLib/region.hpp, request.hpp and dataNodeSignal.hpp.
-- DataNode.Worker: src/dataNode/regionWorker.cpp. Worker.Fields has its loops over JSON, Write
--   `handleWrite`, Status `handleStatus`, Dispatch `handleSignal` and `run`. A memtable that is shared
--   with a flush signal is copied into it: it is frozen then, and its region holds a new one.
-- DataNode.Server: src/dataNode/regionServer.cpp, parseRequests and run. The clock is a parameter.
--   Server.Writes reads the writes of the request texts without the server's code.
-- DataNode.Engine: src/dataNode/mitoEngine.cpp.
-- DataNode.Node: the three together, from the server's lines to the workers' rows.
-- DataNode.Sst: src/dataNode/dataNodeLib/SST.hpp, the layout of a block and each copy into its buffer.
-- DataNode.Flusher: src/dataNode/flusher.cpp, with appendMemtable of SST.hpp; SSTs are in a store by pointer,
--   and files by folder and region.
-- Index.BitMap: src-old/lib/bitMap.hpp; a byte is the function of its bits.
-- Index.BloomFilter: src-old/lib/prefixBloomFilter.hpp and the shift of IPv6Address in util.hpp. std::hash
--   is a parameter. `set_rows` and `get_rows` are the chains of sets and gets over the rows that a method
--   visits.
-- Index.SkipList: src-old/lib/skipList.hpp. Nodes are in a store, by pointer; SkipList.KeyTypes are the seven
--   classes of keys; what the bytes between the fields of the 40-byte key hold is the parameter `gap`. The
--   loops take as many rounds as there are nodes, which the searches prove enough.
-- Index.MemoryIndex: src-old/lib/memoryIndex.hpp, the lists behind the filter; `insert_parts` is the chain
--   of the fields of a key.
-- Index.Generator: src-old/IndexNode/indexGenerator.cpp, on the ring of PipeRing, which
--   src-old/lib/singleRingBuffer.hpp repeats. Its loops take rounds, one more than there are flows.
-- Index.Keys: the comparisons in src-old/lib/util.hpp.
-- Probe.Aggregator: src/probe/probeLib/packetAggregator.hpp, whose hash table is the function that `find`
--   computes.
-- Probe.DataBlocks: src/probe/probeLib/dataBlockBuffer.hpp, the ring of blocks, with the disk threads' side in
--   DataBlocks.Checks. `none` is an access out of bounds.
-- Probe.DiskAgent: src/probe/probeLib/diskAgent.hpp; the answers of io_uring are arguments.
-- Probe.DiskManager: src/probe/diskManager.cpp, addBlock and the rounds of runData for blocks of packets.
--
-- A loop over a pipe or over the input is a recursion on the list of what it takes. Only the loops of the
-- skip list, of the generator and of the ring's constructor take fuel. Log files are not modelled, but for
-- the exception of an SST whose log does not open. Nor are the reader of the SST files, the start of
-- the threads and the configuration (src/dataNode/dataNode.cpp), the rest of the probe (src/probe),
-- which drives DPDK and threads, and the rest of the previous version (src-old).
pub mod Common
pub mod PipeRing
pub mod DataNode
pub mod Index
pub mod Probe

-- ===== src/DataNode/Node.antt =====
-- The threads of src/dataNode/dataNode.cpp together: what the workers store of the requests that the
-- server reads. Each pipe hands on its signals in their order, as PipeRing.Refine shows of the ring.
mod Tests
use di_traffic_database.DataNode.Exceptions.{Try}
use di_traffic_database.DataNode.Server
use di_traffic_database.DataNode.Server.{Server}
use di_traffic_database.DataNode.Engine
use di_traffic_database.DataNode.Worker
use di_traffic_database.DataNode.Worker.{Worker}
use di_traffic_database.DataNode.Worker.Dispatch

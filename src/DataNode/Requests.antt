-- ===== src/DataNode/Requests.antt =====
-- dataNodeLib/request.hpp and dataNodeLib/dataNodeSignal.hpp: what the components send one another.
use di_traffic_database.Common.{ℕ, Bool}
use di_traffic_database.DataNode.Text.{Str}
use di_traffic_database.DataNode.Memtable.{Memtable}
use di_traffic_database.DataNode.Region.{Sst}

pub data RegionOperation : Type 0 where
  create_op open_op close_op drop_op : RegionOperation

pub record WriteRequest : Type 0 where
  pub timestamp : ℕ
  pub json_data : Str

pub record CreateRegion : Type 0 where
  pub name : Str
  pub partition : Str
  pub attrs_json : Str

-- `RegionOpPayload`; the alternative always agrees with the operation that stands beside it.
pub data RegionAdminRequest : Type 0 where
  create_region : CreateRegion → RegionAdminRequest
  open_region : Bool → RegionAdminRequest
  close_region : Bool → RegionAdminRequest
  drop_region : Bool → RegionAdminRequest

pub record RequestHeader : Type 0 where
  pub request_id : ℕ
  pub timestamp_ns : ℕ

-- The request types WRITE and REGION_ADMIN with their payloads; no part of the node makes a QUERY.
pub data Payload : Type 0 where
  write_payload : WriteRequest → Payload
  admin_payload : RegionAdminRequest → Payload

pub record Request : Type 0 where
  pub header : RequestHeader
  pub payload : Payload

-- `MitoSignal` and `WorkSignal`, which have the same fields.
pub record Signal : Type 0 where
  pub region_id : ℕ
  pub request : Request

pub record FlushSignal : Type 0 where
  pub region_id : ℕ
  pub start_time : ℕ
  pub end_time : ℕ
  pub memtable : Memtable
  pub sst : Sst

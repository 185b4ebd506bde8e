-- ===== src/DataNode/Region.antt =====
-- dataNodeLib/region.hpp: the context of a region.
use di_traffic_database.Common.{ℕ, Option, none, some, []}
use di_traffic_database.DataNode.Text.{Str}
use di_traffic_database.DataNode.Maps.{Dict, find}
use di_traffic_database.DataNode.Memtable.{Memtable}

-- What identifies the SST of a region; the worker only hands it on.
pub record Sst : Type 0 where
  pub region_id : ℕ
  pub data_path : Str
  pub log_path : Str

pub record Region : Type 0 where
  pub region_id : ℕ
  pub region_name : Str
  pub partition_expr : Str
  pub current_sst : Option Sst
  pub attrs : Dict Str
  pub current_memtable : Option Memtable

unfoldable pub create : ℕ → Str → Str → Dict Str → Region
create region_id region_name partition_expr attrs = record {
  region_id = region_id;
  region_name = region_name;
  partition_expr = partition_expr;
  current_sst = none;
  attrs = attrs;
  current_memtable = none;
}

-- `getAtrr`: the empty string for a key that is not there.
unfoldable pub get_attr : Region → Str → Str
get_attr r key = elim (find key r.attrs) [ some v ↦ v | none ↦ [] ]

unfoldable pub set_memtable : Region → Option Memtable → Region
set_memtable r m = record r { current_memtable = m }

unfoldable pub set_sst : Region → Option Sst → Region
set_sst r s = record r { current_sst = s }

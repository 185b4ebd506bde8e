-- ===== src/DataNode/Flusher.antt =====
-- src/dataNode/flusher.cpp, with the files and the SSTs of dataNodeLib/SST.hpp: the flusher appends a
-- block to the SST of each signal. Files that are there at the start are part of the state.
pub mod Offsets
mod Tests
use di_traffic_database.Common.{ℕ, ◌+◌, ◌==◌, ◌&&◌, Bool, List, [], ◌∷◌, ◌++◌, if◌then◌else◌}
use di_traffic_database.DataNode.Exceptions.{Exception, runtime_error, Try, ok, thrown}
use di_traffic_database.DataNode.Text.{Str, str_eq}
use di_traffic_database.DataNode.Memtable.{Memtable}
use di_traffic_database.DataNode.Sst.{Copy, flush_block}
use di_traffic_database.DataNode.Requests.{FlushSignal}

-- `SSTBlockMeta` of a stored block; its file is that of region `region_id` in `file_folder`.
pub record SstBlockMeta : Type 0 where
  pub file_folder : Str
  pub region_id : ℕ
  pub file_offset : ℕ
  pub start_time : ℕ
  pub end_time : ℕ

-- `region_metas` of each SST, by its pointer, and the blocks of each file, by folder and region, each
-- with its size.
pub record SstStore : Type 0 where
  pub region_metas : ℕ → List SstBlockMeta
  pub files : Str → ℕ → List (ℕ × List Copy)

-- A signal, with its pointer to an SST and whether the file can be opened when the signal is handled.
pub record Flush : Type 0 where
  pub can_open : Bool
  pub sst : ℕ
  pub signal : FlushSignal

unfoldable pub file_size : List (ℕ × List Copy) → ℕ
file_size [] = 0
file_size ((size, copies) ∷ blocks) = size + file_size blocks

-- `outfile.write` to the file of the meta.
unfoldable pub write_block : SstStore → Str → ℕ → ℕ × List Copy → SstStore
write_block store folder id block = record store {
  files = λ f i.
      if str_eq f folder && i == id then store.files f i ++ (block ∷ []) else store.files f i;
}

-- `region_metas.push_back(meta)`
unfoldable pub push_meta : SstStore → ℕ → SstBlockMeta → SstStore
push_meta store sst meta = record store {
  region_metas =
      λ s. if s == sst then store.region_metas s ++ (meta ∷ []) else store.region_metas s;
}

-- `appendMemtable` of the SST `sst`, whose `dataPath` is `folder`.
unfoldable pub append_memtable : Bool → SstStore → ℕ → Str → Memtable → ℕ → ℕ → ℕ → Try SstStore
append_memtable can_open store sst folder m start_time end_time id = elim (flush_block m) [
  | thrown x ↦ thrown x
  | ok block ↦
      if can_open
      then ok (
          push_meta (write_block store folder id block) sst (record {
            file_folder = folder;
            region_id = id;
            file_offset = file_size (store.files folder id);
            start_time = start_time;
            end_time = end_time;
          }))
      else thrown runtime_error
]

-- `catch (const std::runtime_error&)`
unfoldable pub logged : SstStore → Exception → Try SstStore
logged store runtime_error = ok store
logged store other = thrown other

unfoldable pub handle_flush : SstStore → Flush → Try SstStore
handle_flush store f =
    elim (append_memtable f.can_open store f.sst f.signal.sst.data_path f.signal.memtable
      f.signal.start_time f.signal.end_time f.signal.region_id) [
        | ok store' ↦ ok store'
        | thrown x ↦ logged store x
      ]

-- The loop of `run` over the signals that it takes from the workers' pipe.
unfoldable pub run : SstStore → List Flush → Try SstStore
run store [] = ok store
run store (f ∷ flushes) = elim (handle_flush store f) [
  | thrown x ↦ thrown x
  | ok store' ↦ run store' flushes
]

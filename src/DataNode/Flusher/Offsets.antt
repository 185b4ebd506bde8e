-- ===== src/DataNode/Flusher/Offsets.antt =====
-- Where the flusher's blocks are in the files.
use di_traffic_database.Common.{
  ℕ, ◌+◌, ◌==◌, ==_iff, ◌&&◌, Bool, true, List, [], ◌∷◌, ◌++◌, ◌≡◌, ap₂, sym, arith, inl, inr,
  subst, ◌∙◌, Bool-cases,
}
use di_traffic_database.DataNode.Exceptions.{
  Exception, invalid_argument, out_of_range, runtime_error, json_error, bad_variant_access,
  null_dereference, index_past_end, ok, ok-injective, thrown-ne-ok, Try-cases,
}
use di_traffic_database.DataNode.Text.{Str, str_eq, str_eq_sound}
use di_traffic_database.DataNode.Memtable.{Memtable}
use di_traffic_database.DataNode.Sst.{Copy, flush_block}
use di_traffic_database.Index.SkipList.Towers.{All}
use di_traffic_database.DataNode.Flusher.{
  SstBlockMeta, SstStore, Flush, file_size, write_block, push_meta, append_memtable, logged,
  handle_flush, run,
}

-- The metas and the blocks agree from offset `start` on: each block begins where its meta says, which is
-- where the block before it ends.
abbrev pub Placed : ℕ → List SstBlockMeta → List (ℕ × List Copy) → Type 0
Placed start [] [] = Unit {0}
Placed start [] (b ∷ blocks) = ⊥
Placed start (m ∷ metas) [] = ⊥
Placed start (m ∷ metas) ((size, copies) ∷ blocks) =
    (m.file_offset ≡ start) × Placed (start + size) metas blocks

Placed-snoc :
    (metas : List SstBlockMeta) (blocks : List (ℕ × List Copy)) (start : ℕ) (m : SstBlockMeta)
    (b : ℕ × List Copy)
    → Placed start metas blocks
    → m.file_offset ≡ start + file_size blocks
    → Placed start (metas ++ (m ∷ [])) (blocks ++ (b ∷ []))
unfolding file_size
Placed-snoc [] [] start m (size, copies) h e = (omega (arith, e), tt)
Placed-snoc [] (b ∷ blocks) start m c h e = absurd h
Placed-snoc (n ∷ metas) [] start m c h e = absurd h
Placed-snoc (n ∷ metas) ((size, copies) ∷ blocks) start m c h e =
    (h.0, Placed-snoc metas blocks (start + size) m c h.1 (omega (arith, e)))

and_parts : (a b : Bool) → (a && b) ≡ true → (a ≡ true) × (b ≡ true)
and_parts a b e = (ground arith, ground arith)

-- The SST `sst`, and the file of region `id` in `folder`.
module _ (sst : ℕ) (folder : Str) (id : ℕ) where
  -- The signal is for the SST just if it is for the file.
  abbrev pub IsOwn : Flush → Type 0
  IsOwn f = (sst == f.sst) ≡ (str_eq folder f.signal.sst.data_path && id == f.signal.region_id)

  abbrev pub IsPlaced : SstStore → Type 0
  IsPlaced store = Placed 0 (store.region_metas sst) (store.files folder id)

  append_memtable-IsPlaced :
      (can_open : Bool) (store : SstStore) (other : ℕ) (path : Str) (m : Memtable)
      (start_time end_time region_id : ℕ) {store' : SstStore}
      → (sst == other) ≡ (str_eq folder path && id == region_id)
      → IsPlaced store
      → append_memtable can_open store other path m start_time end_time region_id ≡ ok store'
      → IsPlaced store'
  unfolding append_memtable push_meta write_block
  append_memtable-IsPlaced can_open store other path m start_time end_time region_id {store'} own v
        e =
      elim (Try-cases (flush_block m)) [
        | inr (x, failed) ↦ absurd (thrown-ne-ok (rw (failed, append_memtable) at e))
        | inl (block, made) ↦ elim (Bool-cases can_open) [
          | inr shut ↦ absurd (thrown-ne-ok (rw (made, shut, append_memtable) at e))
          | inl open_file ↦
              subst IsPlaced (ok-injective (rw (made, open_file, append_memtable) at e))
                (placed block)
        ]
      ]
    where
      meta : SstBlockMeta
      meta = record {
        file_folder = path;
        region_id = region_id;
        file_offset = file_size (store.files path region_id);
        start_time = start_time;
        end_time = end_time;
      }

      same_size :
          folder ≡ path
          → id ≡ region_id
          → file_size (store.files path region_id) ≡ file_size (store.files folder id)
      same_size f i = ap₂ (λ g j. file_size (store.files g j)) (sym f) (sym i)

      placed :
          (block : ℕ × List Copy)
          → IsPlaced (push_meta (write_block store path region_id block) other meta)
      placed block = elim (Bool-cases (sst == other)) [
        | inr apart ↦ rw (apart, sym own ∙ apart) v
        | inl same ↦
            let (folders, ids) = and_parts _ _ (sym own ∙ same) in
            rw (same, sym own ∙ same)
              (Placed-snoc (store.region_metas sst) (store.files folder id) 0 meta block v (
                omega (
                  arith,
                  same_size (str_eq_sound folder path folders) ((==_iff id region_id).0 ids),
                )))
      ]

  logged-IsPlaced :
      (store : SstStore) (x : Exception) {store' : SstStore}
      → IsPlaced store
      → logged store x ≡ ok store'
      → IsPlaced store'
  unfolding logged
  logged-IsPlaced store runtime_error v e = subst IsPlaced (ok-injective e) v
  logged-IsPlaced store invalid_argument v e = absurd (thrown-ne-ok e)
  logged-IsPlaced store out_of_range v e = absurd (thrown-ne-ok e)
  logged-IsPlaced store json_error v e = absurd (thrown-ne-ok e)
  logged-IsPlaced store bad_variant_access v e = absurd (thrown-ne-ok e)
  logged-IsPlaced store null_dereference v e = absurd (thrown-ne-ok e)
  logged-IsPlaced store index_past_end v e = absurd (thrown-ne-ok e)

  handle_flush-IsPlaced :
      (store : SstStore) (f : Flush) {store' : SstStore}
      → IsOwn f
      → IsPlaced store
      → handle_flush store f ≡ ok store'
      → IsPlaced store'
  unfolding handle_flush
  handle_flush-IsPlaced store f own v e =
      elim (Try-cases (
        append_memtable f.can_open store f.sst f.signal.sst.data_path f.signal.memtable
          f.signal.start_time f.signal.end_time f.signal.region_id)) [
            | inl (done, appended) ↦
                append_memtable-IsPlaced f.can_open store f.sst f.signal.sst.data_path
                  f.signal.memtable f.signal.start_time f.signal.end_time f.signal.region_id own v
                  (appended ∙ (rw (appended, handle_flush) at e))
            | inr (x, failed) ↦ logged-IsPlaced store x v (rw (failed, handle_flush) at e)
          ]

  -- Let an SST and a file belong together: the signals for the one are those for the other. If every
  -- block of the file begins where the SST's meta says, right after the block before it, and there is one
  -- meta for each block, then this is so after the flusher has handled any signals, also those of other
  -- SSTs, without an exception that it does not catch, whether or not their files could be opened.
  pub run-IsPlaced :
      (flushes : List Flush) (store : SstStore) {store' : SstStore}
      → All IsOwn flushes
      → IsPlaced store
      → run store flushes ≡ ok store'
      → IsPlaced store'
  unfolding run
  run-IsPlaced [] store own v e = subst IsPlaced (ok-injective e) v
  run-IsPlaced (f ∷ flushes) store own v e = elim (Try-cases (handle_flush store f)) [
    | inr (x, failed) ↦ absurd (thrown-ne-ok (rw (failed, run) at e))
    | inl (next, handled) ↦
        run-IsPlaced flushes next own.1 (handle_flush-IsPlaced store f own.0 v handled)
          (rw (handled, run) at e)
  ]

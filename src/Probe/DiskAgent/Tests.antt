-- ===== src/Probe/DiskAgent/Tests.antt =====
-- An agent of four blocks of 512 bytes, from byte 4096 of the disk on.
use di_traffic_database.Common.{ℕ, ◌+◌, ◌-◌, ◌*◌, ◌<◌, true, some, ◌≡◌, refl, arith, ◌⊎◌}
use di_traffic_database.DataNode.Exceptions.{ok}
use di_traffic_database.Probe.DiskAgent.{DiskAgent, create, Answers, async_write, read, read_range}
use di_traffic_database.Probe.DiskAgent.Bounds.{Requested, IsInside, requests-IsInside}

abbrev taken : Answers
taken = record { has_entry = true; submitted = true }

requests-IsInside_example :
    (a : DiskAgent) × (create 2048 512 4096 ≡ some (ok a))
    × ((buffer block_id write_pos : ℕ)
        → Requested a write_pos 1 true (async_write a taken buffer block_id write_pos) (λ r.
          ((write_pos < a.block_num) × IsInside a r)
          ⊎ ((write_pos ≡ a.block_num) × (r.offset ≡ 4096 + 2048))))
    × ((buffer id : ℕ) → Requested a id 1 true (read a taken true buffer id) (IsInside a))
    × ((buffer begin_id end_id : ℕ)
        → Requested a begin_id
            (end_id - begin_id + 1)
            true
            (read_range a taken true buffer begin_id end_id)
            (λ r.
              ((end_id < a.block_num) × IsInside a r)
              ⊎ ((end_id ≡ a.block_num)
                  × (r.offset + (end_id - begin_id + 1) * 512 ≡ 4096 + 2048 + 512))))
requests-IsInside_example =
    requests-IsInside 2048 512 4096 taken true (omega arith) refl (omega arith)

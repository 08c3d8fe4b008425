-- ===== src/Manager/Outbound.antt =====
-- From the application to the queue: `QueueApplicationData` and the cover traffic.
use disguise.Common.{ℕ, ◌+◌, ◌^◌, ◌<◌, ◌≡◌, refl, List, ◌++◌, true, false, arith}
use disguise.Common.{Option, ok, length}
use disguise.Common.Floats.{Floats}
use disguise.Profile.Draws.{IsUsable, get_next_cell_size_lem}
use disguise.Framing.{Cell, IsCell, Framer}
use disguise.Framing.Padding.{generate_random_offset}
use disguise.Framing.Fragment.{CellDraws, make_dummy, create_dummy_cell}
use disguise.Framing.Fragment.Cells.Run.{payloads-fragment, payloads}
use disguise.Scheduler.View.{entries}
use disguise.Scheduler.Send.{schedule_cell_lem}
use disguise.Manager.{Manager, lock, queue_application_data, cover_traffic_tick}
use disguise.Manager.Invariant.{IsManager, AreCells-perm}
use disguise.Manager.Invariant.Kept.{stamped, queue_cells_lem}
use mathlib.Core.List.{Perm}

module _ ⦃F : Floats⦄ where
  -- On a well-formed manager, with clock readings of 64 bits, `QueueApplicationData` returns. The
  -- payloads of the cells it makes are the data, in order; the queue holds, in some order, what it
  -- held and each new cell with its due time; there is one more observation for each cell; and the
  -- manager stays well formed.
  pub queue_application_data_lem :
      (m : Manager) (bytes : List ℕ) (id : Option (ℕ × ℕ)) (draws : ℕ → CellDraws) (times : ℕ → ℕ)
      → IsManager m
      → ((j : ℕ) → (draws j).now < 256 ^ 8)
      → (m' : Manager) × (cells : List Cell) × (queue_application_data m bytes id draws times
          ≡ ok m')
        × (payloads cells ≡ bytes)
        × Perm
            (entries m'.scheduler.queue)
            (stamped m.scheduler.profile cells times 0 ++ entries m.scheduler.queue)
        × (length m'.observation_queue ≡ length m.observation_queue + length cells)
        × IsManager m'
  unfolding queue_application_data lock
  queue_application_data_lem m bytes id draws times h clock =
      let (cells, f', made, joined, run, fits, after) =
        payloads-fragment m.framer bytes id draws h.usable h.numbered clock in
      let m1 = record m { framer = f'; locked = true } in
      let (s, o, queued, q, all, same, small, profile, count) =
        queue_cells_lem m1 cells times 0 h.queue h.cells fits h.buckets in
      (
        record m1 { scheduler = s; observation_queue = o; locked = false },
        cells,
        rw (h.open_lock, made, queued),
        joined,
        same,
        count,
        record {
          open_lock = refl;
          usable = after.usable;
          numbered = omega (arith, after.counted);
          queue = q;
          cells = all;
          model = h.model;
          buckets = small;
        },
      )

  make_dummy-IsCell :
      (f : Framer) (total : ℕ) (d : CellDraws) → d.now < 256 ^ 8 → IsCell (make_dummy f total d)
  unfolding make_dummy generate_random_offset
  make_dummy-IsCell f total d clock = record {
    cell_id_fits = omega arith;
    type_fits = omega arith;
    flags_fits = omega arith;
    seq_fits = omega arith;
    timestamp_fits = clock;
    payload_len_fits = omega arith;
    padding_len_fits = omega arith;
    rand_offset_fits = ground arith;
  }

  dummy-IsCell :
      (f : Framer) (d : CellDraws)
      → IsUsable f.profile
      → d.now < 256 ^ 8
      → (c : Cell) × (create_dummy_cell f d ≡ ok c) × IsCell c
  unfolding create_dummy_cell
  dummy-IsCell f d u clock =
      let (total, sized, least, most) = get_next_cell_size_lem f.profile d.size u in
      (make_dummy f total d, rw sized, make_dummy-IsCell f total d clock)

  -- On a well-formed manager, with a clock reading of 64 bits, a round of the cover traffic loop
  -- returns and leaves the manager well formed.
  pub cover_traffic_tick-IsManager :
      (m : Manager) (d : CellDraws) (now : ℕ)
      → IsManager m
      → d.now < 256 ^ 8
      → (m' : Manager) × (cover_traffic_tick m d now ≡ ok m') × IsManager m'
  unfolding cover_traffic_tick lock
  cover_traffic_tick-IsManager m d now h clock =
      let (c, made, fits) = dummy-IsCell m.framer d h.usable clock in
      let (s, queued, q, same, profile) = schedule_cell_lem m.scheduler c now h.queue in
      (
        record m { scheduler = s; locked = false },
        rw (h.open_lock, made, queued),
        record {
          open_lock = refl;
          usable = h.usable;
          numbered = h.numbered;
          queue = q;
          cells = AreCells-perm m.scheduler.queue s.queue c _ same fits h.cells;
          model = h.model;
          buckets = h.buckets;
        },
      )

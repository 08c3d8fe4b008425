-- ===== src/Manager/Tests.antt =====
-- Concrete runs of the manager, and its theorems at concrete inputs.
use disguise.Common.{no_outbound_traffic, ◌⊎◌}
use disguise.Common.{
  ℕ, zero, suc, ◌+◌, ◌≡◌, ◌<◌, ◌≤◌, All, refl, Option, List, [], ◌∷◌, ◌++◌, false, if◌then◌else◌,
  none, some, ok, panic, blocked, arith, length, length_mismatch, failed_decode,
}
use disguise.Common.Int.{pos}
use disguise.Common.Fixed.{fixed}
use disguise.Profile.{TrafficType, dynamic, get_profile, get_profile_type, same_type}
use disguise.Framing.{Cell, IsCell, new_framer, type_data}
use disguise.Framing.Codec.{encode_cell, content, header}
use disguise.Framing.Fragment.{CellDraws}
use disguise.Framing.Fragment.Cells.Run.{payloads}
use disguise.Scheduler.{Scheduler, get_next_cell, heap_pop, swap, down_loop, pop}
use disguise.Scheduler.Order.{IsHeap}
use disguise.Common.Bytes.{slice, slice_from, be}
use disguise.Scheduler.View.{entries, key, IsIndexed}
use disguise.Classifier.{predict}
use disguise.Classifier.Predict.{IsState}
use disguise.Manager.{
  Manager, value, failure, new_manager, unlock, encode_next, queue_application_data,
  get_outbound_traffic, process_inbound_traffic, read_application_data, profiling_tick,
}
use disguise.Manager.Invariant.{IsManager, AreCells-perm, new_manager-IsManager}
use disguise.Manager.Invariant.Kept.{stamped}
use disguise.Manager.Outbound.{queue_application_data_lem}
use disguise.Manager.Sending.{get_outbound_traffic_lem}
use disguise.Scheduler.Send.{Sent}
use disguise.Manager.Inbound.{process_inbound_traffic-get_outbound_traffic}
use disguise.Manager.Profiling.{profiling_tick_lem}
use disguise.Manager.Reach.{Step, Reach, Reach-IsManager}
use mathlib.Core.List.{Perm, not-mem-nil}
use mathlib.Core.List.Perm

abbrev fresh : Manager
fresh = new_manager 0

-- A data cell of two bytes, three bytes of padding around it.
abbrev cell : Cell
cell = record {
  cell_id = 513;
  type = type_data;
  flags = 1;
  seq = 7;
  timestamp = 1000;
  payload_len = 2;
  padding_len = 3;
  rand_offset = 1;
  payload = 72 ∷ 105 ∷ [];
  padding = 10 ∷ 11 ∷ 12 ∷ [];
}

abbrev encoding : List ℕ
encoding =
    2 ∷ 1 ∷ 1 ∷ 1 ∷ 0 ∷ 0 ∷ 0 ∷ 7 ∷ 0 ∷ 0 ∷ 0 ∷ 0 ∷ 0 ∷ 0 ∷ 3 ∷ 232 ∷ 0 ∷ 2 ∷ 0 ∷ 3 ∷ 0 ∷ 1 ∷ 10
    ∷ 72 ∷ 105 ∷ 11 ∷ 12 ∷ []

-- A new manager with that cell queued, due at 20.
abbrev loaded : Manager
loaded = record fresh {
  scheduler = record fresh.scheduler {
    queue = record { cell = cell; priority = 20; index = pos 0 } ∷ [];
  };
}

abbrev sent : Manager
sent = record fresh { scheduler = record fresh.scheduler { queue = [] } }

cell-IsCell : IsCell cell
cell-IsCell = record {
  cell_id_fits = omega arith;
  type_fits = omega arith;
  flags_fits = omega arith;
  seq_fits = omega arith;
  timestamp_fits = omega arith;
  payload_len_fits = omega arith;
  padding_len_fits = omega arith;
  rand_offset_fits = omega arith;
}

loaded-IsManager : IsManager loaded
unfolding new_manager
loaded-IsManager =
    let h = new_manager-IsManager 0 in
    record {
      open_lock = refl;
      usable = h.usable;
      numbered = h.numbered;
      queue = record { heap = only_one; indexed = placed };
      cells =
          AreCells-perm [] loaded.scheduler.queue cell 20 (Perm.refl ((cell, 20) ∷ [])) cell-IsCell
            (λ x m. absurd (not-mem-nil m));
      model = h.model;
      buckets = tt;
    }
  where
    only_one : IsHeap (key loaded.scheduler.queue) 1
    only_one c p q = absurd (omega arith)

    placed : IsIndexed loaded.scheduler.queue
    placed zero q = refl
    placed (suc c) q = absurd (omega arith)

loaded-sent : get_outbound_traffic loaded 25 ≡ ok (value encoding, sent)
unfolding get_outbound_traffic new_manager get_next_cell heap_pop swap down_loop pop encode_next
    encode_cell content slice slice_from header be
loaded-sent = refl

get_outbound_traffic_lem_example :
    (next : Option Cell) × (s' : Scheduler) × Sent loaded.scheduler 25 next s'
    × IsManager (record loaded { scheduler = s' })
    × (((next ≡ none)
          × (get_outbound_traffic loaded 25
              ≡ ok (failure no_outbound_traffic, record loaded { scheduler = s' })))
        ⊎ ((c : Cell) × (next ≡ some c)
            × IsCell c
            × (((encode_cell c ≡ panic) × (get_outbound_traffic loaded 25 ≡ panic))
                ⊎ ((bytes : List ℕ) × (encode_cell c ≡ ok bytes)
                    × (get_outbound_traffic loaded 25
                        ≡ ok (value bytes, record loaded { scheduler = s' }))))))
get_outbound_traffic_lem_example = get_outbound_traffic_lem loaded 25 loaded-IsManager

process_inbound_traffic-get_outbound_traffic_example :
    process_inbound_traffic fresh encoding []
    ≡ ok (failure (failed_decode length_mismatch), unlock fresh)
unfolding new_manager
process_inbound_traffic-get_outbound_traffic_example =
    process_inbound_traffic-get_outbound_traffic loaded 25 encoding sent fresh [] loaded-IsManager
      loaded-sent refl

abbrev draws : ℕ → CellDraws
draws i = record {
  now = 1000;
  length = record { choice = 500; uniform = 100; normal = 0 };
  size = 36;
  padding = record { coin = 0; first = λ j. j; second = λ j. j };
  offset = 3;
}

abbrev greeting : List ℕ
greeting = 104 ∷ 101 ∷ 108 ∷ 108 ∷ 111 ∷ []

abbrev times : ℕ → ℕ
times i = 100 + i

queue_application_data_lem_example :
    (m' : Manager) × (cells : List Cell) × (queue_application_data fresh greeting
        (some (1, 2))
        draws
        times
      ≡ ok m')
    × (payloads cells ≡ greeting)
    × Perm
        (entries m'.scheduler.queue)
        (stamped fresh.scheduler.profile cells times 0 ++ entries fresh.scheduler.queue)
    × (length m'.observation_queue ≡ length fresh.observation_queue + length cells)
    × IsManager m'
queue_application_data_lem_example =
    queue_application_data_lem fresh greeting (some (1, 2)) draws times (new_manager-IsManager 0)
      (λ j. omega arith)

-- A new manager that has noted some buckets.
abbrev observed : List ℕ → Manager
observed o = record fresh { observation_queue = o }

observed-IsManager : (o : List ℕ) → All (λ o. o < 3) o → IsManager (observed o)
unfolding new_manager
observed-IsManager o small =
    let h = new_manager-IsManager 0 in
    record {
      open_lock = refl;
      usable = h.usable;
      numbered = h.numbered;
      queue = h.queue;
      cells = h.cells;
      model = h.model;
      buckets = small;
    }

abbrev ten : List ℕ
ten = 0 ∷ 1 ∷ 2 ∷ 2 ∷ 2 ∷ 0 ∷ 0 ∷ 1 ∷ 2 ∷ 0 ∷ []

fresh-dynamic : get_profile_type fresh.framer.profile ≡ dynamic
unfolding new_manager new_framer get_profile_type get_profile
fresh-dynamic = refl

profiling_tick_lem_example :
    ((length (observed ten).observation_queue < 10)
      × (profiling_tick (observed ten) 5 ≡ ok (unlock (observed ten))))
    ⊎ ((10 ≤ length (observed ten).observation_queue)
        × (t : TrafficType) × (predict (observed ten).classifier (observed ten).observation_queue
            ≡ ok t)
        × IsState t
        × (profiling_tick (observed ten) 5 ≡ (
            if same_type t (get_profile_type (observed ten).framer.profile)
            then ok (record (observed ten) { observation_queue = []; locked = false })
            else blocked)))
profiling_tick_lem_example =
    profiling_tick_lem (observed ten) 5 (observed-IsManager ten (omega arith))

fresh-read : read_application_data fresh ≡ ok (none, fresh)
unfolding read_application_data new_manager
fresh-read = refl

Reach-IsManager_example : IsManager fresh
Reach-IsManager_example =
    Reach-IsManager fresh (Reach.after (Reach.start 0) (Step.read none fresh-read))

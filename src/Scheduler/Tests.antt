-- ===== src/Scheduler/Tests.antt =====
-- Concrete runs of the scheduler, and its theorems at concrete inputs.
use disguise.Common.{ℕ, zero, suc, ◌≡◌, refl, [], ◌∷◌, Option, some, Outcome, ok, ◌>>=◌, arith}
use disguise.Common.Int.{pos}
use disguise.Common.Fixed.{fixed}
use disguise.Profile.{web_browsing, get_profile}
use disguise.Framing.{Cell, type_data, type_dummy}
use disguise.Scheduler.{
  Item, Scheduler, new_scheduler, schedule_cell, get_next_cell, priority_of, heap_push, up_loop,
  push, less, swap, heap_pop, down_loop, pop,
}
use disguise.Scheduler.Order.{IsHeap}
use disguise.Scheduler.View.{entries, key, IsIndexed}
use disguise.Scheduler.Send.{IsQueue, Sent, schedule_cell_lem, get_next_cell_lem}
use mathlib.Core.List.{Perm}

abbrev cell : ℕ → ℕ → Cell
cell id type = record {
  cell_id = id;
  type = type;
  flags = 0;
  seq = 0;
  timestamp = 0;
  payload_len = 0;
  padding_len = 0;
  rand_offset = 0;
  payload = [];
  padding = [];
}

abbrev item : ℕ → ℕ → ℕ → Item
item id due i = record { cell = cell id type_data; priority = due; index = pos i }

abbrev busy : Scheduler
busy = record {
  profile = get_profile web_browsing;
  queue = item 1 30 0 ∷ item 2 50 1 ∷ item 3 40 2 ∷ [];
  last_send_time = 0;
}

-- A dummy cell waits for the probing interval; a data cell overtakes it.
abbrev session : Outcome (Option Cell)
session = do
  s1 ← schedule_cell (new_scheduler 0) (cell 1 type_dummy) 10
  s2 ← schedule_cell s1 (cell 2 type_data) 20
  (c, s3) ← get_next_cell s2 25
  ok c

session_result : session ≡ ok (some (cell 2 type_data))
unfolding schedule_cell heap_push up_loop push new_scheduler less get_profile swap get_next_cell
    heap_pop down_loop pop
session_result = refl

busy-IsQueue : IsQueue busy.queue
busy-IsQueue = record { heap = in_order; indexed = placed }
  where
    in_order : IsHeap (key busy.queue) 3
    in_order zero p q = absurd (omega arith)
    in_order (suc zero) p q = omega arith
    in_order (suc (suc zero)) p q = omega arith
    in_order (suc (suc (suc c))) p q = absurd (omega arith)

    placed : IsIndexed busy.queue
    placed zero q = refl
    placed (suc zero) q = refl
    placed (suc (suc zero)) q = refl
    placed (suc (suc (suc c))) q = absurd (omega arith)

schedule_cell_lem_example :
    (s' : Scheduler) × (schedule_cell busy (cell 4 type_data) 35 ≡ ok s')
    × IsQueue s'.queue
    × Perm
        (entries s'.queue)
        ((cell 4 type_data, priority_of busy.profile (cell 4 type_data) 35) ∷ entries busy.queue)
    × (s'.profile ≡ busy.profile)
schedule_cell_lem_example = schedule_cell_lem busy (cell 4 type_data) 35 busy-IsQueue

get_next_cell_lem_example :
    (c : Option Cell) × (s' : Scheduler) × (get_next_cell busy 60 ≡ ok (c, s')) × Sent busy 60 c s'
get_next_cell_lem_example = get_next_cell_lem busy 60 busy-IsQueue

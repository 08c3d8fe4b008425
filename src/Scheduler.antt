-- ===== src/Scheduler.antt =====
-- disguise/scheduler/scheduler.go, with what it uses of container/heap. Times are nanoseconds.
pub mod Array
pub mod Order
pub mod View
pub mod Sift
pub mod Send
mod Tests
use disguise.Common.{
  ℕ, zero, suc, ◌+◌, ◌-◌, ◌*◌, ◌/◌, ◌≡◌, List, [], ◌∷◌, ◌++◌, ltb, leb, ◌==◌, if◌then◌else◌, Bool,
  true, false, not,
}
use disguise.Common.{
  Option, none, some, Outcome, ok, panic, out_of_fuel, ◌>>=◌, or_panic, length, get_elem?, set,
  take,
}
use disguise.Common.Int.{ℤ, pos, negsuc}
use disguise.Common.Floats.{Floats}
use disguise.Profile.{Profile, web_browsing, get_profile}
use disguise.Framing.{Cell, type_dummy}

-- `cellItem`
pub record Item : Type 0 where
  pub cell : Cell
  pub priority : ℕ
  pub index : ℤ

-- The methods of `cellPriorityQueue`. An index out of range panics.
unfoldable pub less : List Item → ℕ → ℕ → Outcome Bool
less pq i j = do
  x ← or_panic (get_elem? pq i)
  y ← or_panic (get_elem? pq j)
  ok (ltb x.priority y.priority)

unfoldable pub swap : List Item → ℕ → ℕ → Outcome (List Item)
swap pq i j = do
  y ← or_panic (get_elem? pq j)
  x ← or_panic (get_elem? pq i)
  ok (set (set pq i (record y { index = pos i })) j (record x { index = pos j }))

unfoldable pub push : List Item → Item → List Item
push pq item = pq ++ (record item { index = pos (length pq) } ∷ [])

unfoldable pub pop : List Item → Outcome (Item × List Item)
pop pq = do
  item ← or_panic (get_elem? pq (length pq - 1))
  ok (record item { index = negsuc 0 }, take (length pq - 1) pq)

-- `up` of container/heap.
unfoldable pub up_loop : ℕ → List Item → ℕ → Outcome (List Item)
up_loop zero pq j = out_of_fuel
up_loop (suc fuel) pq j =
    let i = (j - 1) / 2 in
    let rise = swap pq i j >>= λ pq'. up_loop fuel pq' i in
    let step = less pq j i >>= λ below. if below then rise else ok pq in
    if i == j then ok pq else step

-- The smaller child of `i` among the first `n` items; the left child is one of them.
unfoldable pub smaller_child : List Item → ℕ → ℕ → Outcome ℕ
smaller_child pq i n =
    let left = 2 * i + 1 in
    let right = left + 1 in
    let chosen : Outcome ℕ = less pq right left >>= λ below. ok (if below then right else left) in
    if ltb right n then chosen else ok left

-- `down` of container/heap, whose result `Pop` does not use.
unfoldable pub down_loop : ℕ → List Item → ℕ → ℕ → Outcome (List Item)
down_loop zero pq i n = out_of_fuel
down_loop (suc fuel) pq i n =
    let step : Outcome (List Item) = do
      j ← smaller_child pq i n
      below ← less pq j i
      let sink = swap pq i j >>= λ pq'. down_loop fuel pq' j n
      if below then sink else ok pq
    in if leb n (2 * i + 1) then ok pq else step

-- `heap.Push` and `heap.Pop`.
unfoldable pub heap_push : List Item → Item → Outcome (List Item)
heap_push pq item = let pq' = push pq item in up_loop (length pq' + 1) pq' (length pq' - 1)

unfoldable pub heap_pop : List Item → Outcome (Item × List Item)
heap_pop pq = do
  let n = length pq - 1
  pq1 ← swap pq 0 n
  pq2 ← down_loop (length pq + 1) pq1 0 n
  pop pq2

module _ ⦃F : Floats⦄ where
  pub record Scheduler : Type 0 where
    pub profile : Profile
    pub queue : List Item
    pub last_send_time : ℕ

  -- `heap.Init` has nothing to do on an empty queue.
  unfoldable pub new_scheduler : ℕ → Scheduler
  new_scheduler now = record {
    profile = get_profile web_browsing;
    queue = [];
    last_send_time = now;
  }

  unfoldable pub set_profile : Scheduler → Profile → Scheduler
  set_profile s p = record s { profile = p }

  -- The times stay below 2 ^ 63, which the clock reaches in 2262.
  unfoldable pub priority_of : Profile → Cell → ℕ → ℕ
  priority_of p c now = if c.type == type_dummy then now + p.probing_interval else now

  unfoldable pub schedule_cell : Scheduler → Cell → ℕ → Outcome Scheduler
  unfolding priority_of
  schedule_cell s c now = do
    queue ←
        heap_push s.queue
          (record { cell = c; priority = priority_of s.profile c now; index = pos 0 })
    ok (record s { queue = queue })

  unfoldable pub get_next_cell : Scheduler → ℕ → Outcome (Option Cell × Scheduler)
  get_next_cell s now =
      let sent : Outcome (Option Cell × Scheduler) = do
        item ← or_panic (get_elem? s.queue 0)
        let take_out : Outcome (Option Cell × Scheduler) = do
          (popped, queue) ← heap_pop s.queue
          ok (some item.cell, record s { queue = queue })
        if ltb now item.priority then ok (none, s) else take_out
      in if length s.queue == 0 then ok (none, s) else sent

-- ===== src/Scheduler/Send.antt =====
-- `ScheduleCell` and `GetNextCell` of disguise/scheduler/scheduler.go, on a queue in order.
use disguise.Common.{ℕ, suc, ◌+◌, ◌-◌, ◌≤◌, ◌<◌, ◌≡◌, refl, ap, List, [], ◌∷◌, ◌++◌, ltb, ◌==◌}
use disguise.Common.{
  Option, none, some, ok, length, take, length-take, length-append, arith, Bool-cases, inl, inr,
}
use disguise.Common.Int.{pos, negsuc}
use disguise.Common.Floats.{Floats}
use disguise.Framing.{Cell}
use disguise.Scheduler.{
  Item, Scheduler, push, pop, heap_push, heap_pop, schedule_cell, get_next_cell, priority_of,
}
use disguise.Scheduler.Array.{
  get_elem?-get_or, get_or-append, get_or-append_last, get_or-take, take-append-last,
}
use disguise.Scheduler.Order.{parent, IsHeap, IsHeap-root}
use disguise.Scheduler.Sift.{up_loop_lem, down_loop_lem}
use disguise.Scheduler.View.{
  no_item, at, key, entry, entries, IsIndexed, swapped, swap-ok, length-swapped, at-swapped,
  swapped-perm,
}
use mathlib.Core.List.{Perm, perm_middle, append-nil, map-append}
use mathlib.Core.List.Perm

-- The items are a heap by priority, and each knows its place.
pub record IsQueue (pq : List Item) : Type 0 where
  pub heap : IsHeap (key pq) (length pq)
  pub indexed : IsIndexed pq

-- The last element first.
last_first : {A : Type 0} (xs : List A) (x : A) → Perm (xs ++ (x ∷ [])) (x ∷ xs)
last_first xs x = rw (append-nil xs) at (perm_middle {a = x} xs [])

-- `heap.Push` adds the item and keeps the queue.
pub heap_push_lem :
    (pq : List Item) (item : Item)
    → IsQueue pq
    → (pq' : List Item) × (heap_push pq item ≡ ok pq')
      × IsQueue pq'
      × Perm (entries pq') (entry item ∷ entries pq)
unfolding heap_push push
heap_push_lem pq item h =
    let item' = record item { index = pos (length pq) } in
    let grown = pq ++ (item' ∷ []) in
    let size : length grown ≡ length pq + 1 = length-append pq (item' ∷ []) in
    let keys = get_or-append no_item pq (item' ∷ []) in
    let (pq', done, s) =
      up_loop_lem (length grown + 1) grown (length grown - 1) (omega arith) (omega (arith, size))
        (record {
          edges = λ c p q ne. ground (arith, size, h.heap c, keys c, keys (parent c));
          across = λ c p q e up. absurd (omega (arith, size));
        }) in
    (
      pq',
      done,
      record {
        heap = rw s.size s.heap;
        indexed = s.indexed (λ c q. elim (Bool-cases (c == length pq)) [
          | inl e ↦
              let e' : c ≡ length pq = ground arith in
              rw e' (ap (λ (x : Item). x.index) (get_or-append_last no_item pq item'))
          | inr ne ↦ ground (arith, size, keys c, h.indexed c)
        ]);
      },
      Perm.trans s.same
          (rw (map-append entry pq (item' ∷ [])) (last_first (entries pq) (entry item))),
    )

-- Cutting the last item off a queue whose other items are a heap.
cut_last :
    (pq : List Item) (n : ℕ)
    → length pq ≡ suc n
    → IsHeap (key pq) n
    → IsIndexed pq
    → IsQueue (take n pq) × Perm (entry (at pq n) ∷ entries (take n pq)) (entries pq)
cut_last pq n size heap indexed =
    let kept = get_or-take no_item n pq in
    let shorter : length (take n pq) ≡ n = omega (arith, length-take n pq, size) in
    (
      record {
        heap = λ c p q. ground (arith, shorter, heap c, kept c, kept (parent c));
        indexed = λ c q. ground (arith, shorter, size, indexed c, kept c);
      },
      rw
          (
            ← ap entries (take-append-last no_item n pq size),
            map-append entry (take n pq) (at pq n ∷ []),
          )
          (Perm.symm (last_first (entries (take n pq)) (entry (at pq n)))),
    )

-- `heap.Pop` takes the first item out and keeps the queue.
pub heap_pop_lem :
    (pq : List Item)
    → IsQueue pq
    → 0 < length pq
    → (x : Item) × (pq' : List Item) × (heap_pop pq ≡ ok (x, pq'))
      × IsQueue pq'
      × Perm (entry (at pq 0) ∷ entries pq') (entries pq)
unfolding heap_pop pop
heap_pop_lem pq h some_item =
    let n = length pq - 1 in
    let hn : n < length pq = omega arith in
    let pq1 = swapped pq 0 n some_item hn in
    let at1 = at-swapped pq 0 n some_item hn in
    let size1 : length pq1 ≡ length pq = length-swapped pq 0 n some_item hn in
    let (pq2, done, s) =
      down_loop_lem (length pq + 1) pq1 0 n (omega arith) (omega arith) (omega (arith, size1))
        (record {
          edges = λ c p q ne. ground (arith, h.heap c, at1 c, at1 (parent c));
          across = λ c p q e up. absurd (omega arith);
        }) in
    let size2 : length pq2 ≡ suc n = omega (arith, s.size, size1) in
    let rest : length pq2 - 1 ≡ n = omega (arith, size2) in
    let (kept, same) =
      cut_last pq2 n size2 s.heap (s.indexed (λ c q. ground (arith, size1, h.indexed c, at1 c))) in
    let last : entry (at pq2 n) ≡ entry (at pq 0) = ground (arith, s.beyond n, at1 n) in
    (
      record (at pq2 n) { index = negsuc 0 },
      take n pq2,
      rw (
        swap-ok pq 0 n some_item hn,
        done,
        rest,
        get_elem?-get_or no_item pq2 n (omega (arith, size2)),
      ),
      kept,
      Perm.trans (rw last at same) (Perm.trans s.same (swapped-perm pq 0 n some_item hn)),
    )

module _ ⦃F : Floats⦄ where
  -- On a queue in order `ScheduleCell` does not panic. The queue then holds, in some order, what
  -- it held and the cell with its due time, and is in order; the profile does not change.
  pub schedule_cell_lem :
      (s : Scheduler) (c : Cell) (now : ℕ)
      → IsQueue s.queue
      → (s' : Scheduler) × (schedule_cell s c now ≡ ok s')
        × IsQueue s'.queue
        × Perm (entries s'.queue) ((c, priority_of s.profile c now) ∷ entries s.queue)
        × (s'.profile ≡ s.profile)
  unfolding schedule_cell
  schedule_cell_lem s c now h =
      let item : Item = record {
        cell = c;
        priority = priority_of s.profile c now;
        index = pos 0;
      } in
      let (pq, done, kept, same) = heap_push_lem s.queue item h in
      (record s { queue = pq }, rw done, kept, same, refl)

  -- What `GetNextCell` promises. It gives no cell, and leaves the scheduler alone, exactly where no cell
  -- of the queue is due. Otherwise it takes out a cell that is due, and that no other cell is due before.
  pub data Sent (s : Scheduler) (now : ℕ) : Option Cell → Scheduler → Type 0 where
    idle : ((c : ℕ) → c < length s.queue → now < key s.queue c) → Sent s now none s
    taken :
        {c : Cell} {s' : Scheduler} (due : ℕ)
        → due ≤ now
        → ((i : ℕ) → i < length s.queue → due ≤ key s.queue i)
        → IsQueue s'.queue
        → Perm ((c, due) ∷ entries s'.queue) (entries s.queue)
        → s'.profile ≡ s.profile
        → Sent s now (some c) s'

  -- On a queue in order `GetNextCell` does not panic. It gives no cell, and leaves the scheduler
  -- as it was, where no queued cell is due. Otherwise it takes out a cell that is due and that no
  -- other cell is due before; the other cells stay, and the queue stays in order.
  pub get_next_cell_lem :
      (s : Scheduler) (now : ℕ)
      → IsQueue s.queue
      → (c : Option Cell) × (s' : Scheduler) × (get_next_cell s now ≡ ok (c, s')) × Sent s now c s'
  unfolding get_next_cell
  get_next_cell_lem s now h = elim (Bool-cases (length s.queue == 0)) [
    | inl empty ↦ (none, s, rw empty, idle (λ c q. absurd (ground arith)))
    | inr full ↦
        let first : 0 < length s.queue = ground arith in
        let least = IsHeap-root (key s.queue) (length s.queue) h.heap in
        let (x, pq, done, kept, same) = heap_pop_lem s.queue h first in
        elim (Bool-cases (ltb now (key s.queue 0))) [
          | inl early ↦ (
            none,
            s,
            rw (full, get_elem?-get_or no_item s.queue 0 first, early),
            idle (λ c q. ground (arith, least c q)),
          )
          | inr due ↦ (
            some (at s.queue 0).cell,
            record s { queue = pq },
            rw (full, get_elem?-get_or no_item s.queue 0 first, due, done),
            taken (key s.queue 0) (ground arith) least kept same refl,
          )
        ]
  ]

-- ===== src/Scheduler/Sift.antt =====
-- `up` and `down` of container/heap on the queue of cells.
use disguise.Common.{ℕ, zero, suc, ◌+◌, ◌*◌, ◌≤◌, ◌<◌, ◌≡◌, refl, List, ltb, leb, ◌==◌}
use disguise.Common.{ok, length, arith, Bool-cases, inl, inr, ◌⊎◌}
use disguise.Scheduler.{Item, up_loop, smaller_child, down_loop}
use disguise.Scheduler.Array.{}
use disguise.Scheduler.Order.{
  parent, IsHeap, IsRising, IsSinking, IsRising-step, IsRising-done, IsSinking-step, IsSinking-done,
}
use mathlib.Core.List.Perm
use disguise.Scheduler.View.{
  key, entries, Sifted, less-ok, swapped, swap-ok, length-swapped, swapped-IsSwap, Sifted-swapped,
}

Sifted-refl : (n : ℕ) (pq : List Item) → IsHeap (key pq) n → Sifted n pq pq
Sifted-refl n pq h = record {
  heap = h;
  size = refl;
  same = Perm.refl (entries pq);
  indexed = λ k. k;
  beyond = λ c far. refl;
}

-- `up` restores the heap, and its fuel is enough.
pub up_loop_lem :
    (fuel : ℕ) (pq : List Item) (j : ℕ)
    → j < fuel
    → j < length pq
    → IsRising (key pq) (length pq) j
    → (pq' : List Item) × (up_loop fuel pq j ≡ ok pq') × Sifted (length pq) pq pq'
unfolding up_loop
up_loop_lem zero pq j f small r = absurd (omega arith)
up_loop_lem (suc fuel) pq j f small r = elim (Bool-cases (parent j == j)) [
  | inl root ↦ (
    pq,
    rw root,
    Sifted-refl (length pq) pq
        (IsRising-done (key pq) (length pq) j r (λ p. absurd (ground arith))),
  )
  | inr inner ↦ elim (Bool-cases (ltb (key pq j) (key pq (parent j)))) [
    | inl below ↦
        let i = parent j in
        let up : i < j = ground arith in
        let small_i : i < length pq = omega arith in
        let (pq', done, s) =
          up_loop_lem fuel (swapped pq i j small_i small) i (omega arith)
            (rw (length-swapped pq i j small_i small) small_i)
            (rw (length-swapped pq i j small_i small) (
              IsRising-step (key pq) _ (length pq) j r (omega arith) small (ground arith)
                (swapped-IsSwap pq i j small_i small))) in
        (
          pq',
          rw (inner, less-ok pq j i small small_i, below, swap-ok pq i j small_i small) done,
          Sifted-swapped pq i j small_i small (length pq) pq' small_i small
              (rw (length-swapped pq i j small_i small) at s),
        )
    | inr fits ↦ (
      pq,
      rw (inner, less-ok pq j (parent j) small (omega arith), fits),
      Sifted-refl (length pq) pq (IsRising-done (key pq) (length pq) j r (λ p. ground arith)),
    )
  ]
]

-- The children of `i` are the two that the code looks at.
child_cases :
    (P : ℕ → Type 0) (i c : ℕ) → 0 < c → parent c ≡ i → P (2 * i + 1) → P (2 * i + 1 + 1) → P c
child_cases P i c up e left right = elim (sides) [ inl l ↦ rw l left | inr r ↦ rw r right ]
  where
    sides : (c ≡ 2 * i + 1) ⊎ (c ≡ 2 * i + 1 + 1)
    sides = grind arith

smaller_child_lem :
    (pq : List Item) (i n : ℕ)
    → 2 * i + 1 < n
    → n ≤ length pq
    → (j : ℕ) × (smaller_child pq i n ≡ ok j)
      × (j < n)
      × (0 < j)
      × (parent j ≡ i)
      × ((c : ℕ) → 0 < c → c < n → parent c ≡ i → key pq j ≤ key pq c)
unfolding smaller_child
smaller_child_lem pq i n inside short =
    let left = 2 * i + 1 in
    let right = left + 1 in
    elim (Bool-cases (ltb right n)) [
      | inl two ↦ elim (Bool-cases (ltb (key pq right) (key pq left))) [
        | inl below ↦ (
          right,
          rw (two, less-ok pq right left (ground arith) (omega arith), below),
          ground arith,
          omega arith,
          omega arith,
          λ c p q e.
              child_cases (λ c. c < n → key pq right ≤ key pq c) i c p e (λ _. ground arith)
                (λ _. omega arith) q,
        )
        | inr above ↦ (
          left,
          rw (two, less-ok pq right left (ground arith) (omega arith), above),
          omega arith,
          omega arith,
          omega arith,
          λ c p q e.
              child_cases (λ c. c < n → key pq left ≤ key pq c) i c p e (λ _. omega arith)
                (λ _. ground arith) q,
        )
      ]
      | inr one ↦ (
        left,
        rw one,
        omega arith,
        omega arith,
        omega arith,
        λ c p q e.
            child_cases (λ c. c < n → key pq left ≤ key pq c) i c p e (λ _. omega arith)
              (λ past. absurd (ground arith)) q,
      )
    ]

-- `down` from `i` among the first `n` items restores their heap, and its fuel is enough.
pub down_loop_lem :
    (fuel : ℕ) (pq : List Item) (i n : ℕ)
    → n < fuel + i
    → i ≤ n
    → n ≤ length pq
    → IsSinking (key pq) n i
    → (pq' : List Item) × (down_loop fuel pq i n ≡ ok pq') × Sifted n pq pq'
unfolding down_loop
down_loop_lem zero pq i n f small short r = absurd (omega arith)
down_loop_lem (suc fuel) pq i n f small short r = elim (Bool-cases (leb n (2 * i + 1))) [
  | inl leaf ↦ (
    pq,
    rw leaf,
    Sifted-refl n pq (IsSinking-done (key pq) n i r (λ c p q e. absurd (ground arith))),
  )
  | inr inner ↦
      let (j, chosen, inside, positive, child, least) =
        smaller_child_lem pq i n (ground arith) short in
      let small' : i < n = ground arith in
      let small_i : i < length pq = omega arith in
      let small_j : j < length pq = omega arith in
      elim (Bool-cases (ltb (key pq j) (key pq i))) [
        | inl below ↦
            let (pq', done, s) =
              down_loop_lem fuel (swapped pq i j small_i small_j) j n (omega arith) (omega arith)
                (rw (length-swapped pq i j small_i small_j) short)
                (IsSinking-step (key pq) _ n i j r positive inside child (ground arith) least
                  (swapped-IsSwap pq i j small_i small_j)) in
            (
              pq',
              rw
                  (
                    inner,
                    chosen,
                    less-ok pq j i small_j small_i,
                    below,
                    swap-ok pq i j small_i small_j,
                  )
                  done,
              Sifted-swapped pq i j small_i small_j n pq' small' inside s,
            )
        | inr fits ↦ (
          pq,
          rw (inner, chosen, less-ok pq j i small_j small_i, fits),
          Sifted-refl n pq
              (IsSinking-done (key pq) n i r (λ c p q e. ground (arith, least c p q e))),
        )
      ]
]

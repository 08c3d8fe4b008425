-- ===== src/Scheduler/View.antt =====
-- The queue of cells as keys and entries, and what `Less` and `Swap` do to them.
use disguise.Common.{ℕ, ◌≤◌, ◌<◌, ◌≡◌, ◌∙◌, List, [], ltb, ◌==◌, if◌then◌else◌}
use disguise.Common.{ok, length, get_or, set, length-set, arith}
use disguise.Common.Int.{pos}
use disguise.Framing.{Cell}
use disguise.Scheduler.{Item, less, swap}
use disguise.Scheduler.Array.{
  get_elem?-get_or, get_or-set, exchange, exchange-perm, map-set, get_or-map, length-map,
}
use disguise.Scheduler.Order.{IsHeap, IsSwap}
use mathlib.Core.List.{Perm, map}
use mathlib.Core.List.Perm

-- What reading past the end would give; no read of the code does.
abbrev pub no_item : Item
no_item = record {
  cell = record {
    cell_id = 0;
    type = 0;
    flags = 0;
    seq = 0;
    timestamp = 0;
    payload_len = 0;
    padding_len = 0;
    rand_offset = 0;
    payload = [];
    padding = [];
  };
  priority = 0;
  index = pos 0;
}

abbrev pub at : List Item → ℕ → Item
at pq c = get_or pq c no_item

abbrev pub key : List Item → ℕ → ℕ
key pq c = (at pq c).priority

-- An item without its index.
abbrev pub entry : Item → Cell × ℕ
entry x = (x.cell, x.priority)

abbrev pub entries : List Item → List (Cell × ℕ)
entries = map entry

-- Each item knows its place.
abbrev pub IsIndexed : List Item → Type 0
IsIndexed pq = (c : ℕ) → c < length pq → (at pq c).index ≡ pos c

-- The first `n` items of `pq'` are a heap; the items are those of `pq`, and those from `n` on have not
-- moved.
pub record Sifted (n : ℕ) (pq pq' : List Item) : Type 0 where
  pub heap : IsHeap (key pq') n
  pub size : length pq' ≡ length pq
  pub same : Perm (entries pq') (entries pq)
  pub indexed : IsIndexed pq → IsIndexed pq'
  pub beyond : (c : ℕ) → n ≤ c → at pq' c ≡ at pq c

pub less-ok :
    (pq : List Item) (i j : ℕ)
    → i < length pq
    → j < length pq
    → less pq i j ≡ ok (ltb (key pq i) (key pq j))
unfolding less
less-ok pq i j hi hj = rw (get_elem?-get_or no_item pq i hi, get_elem?-get_or no_item pq j hj)

module _ (pq : List Item) (i j : ℕ) (hi : i < length pq) (hj : j < length pq) where
  abbrev pub swapped : List Item
  swapped =
      set (set pq i (record (at pq j) { index = pos i })) j (record (at pq i) { index = pos j })

  pub swap-ok : swap pq i j ≡ ok swapped
  unfolding swap
  swap-ok = rw (get_elem?-get_or no_item pq j hj, get_elem?-get_or no_item pq i hi)

  pub length-swapped : length swapped ≡ length pq
  length-swapped =
      length-set (set pq i (record (at pq j) { index = pos i })) j
        (record (at pq i) { index = pos j })
      ∙ length-set pq i (record (at pq j) { index = pos i })

  pub at-swapped :
      (c : ℕ)
      → at swapped c ≡ (
          if j == c
          then record (at pq i) { index = pos j }
          else if i == c
          then record (at pq j) { index = pos i }
          else at pq c)
  at-swapped c =
      get_or-set no_item (set pq i (record (at pq j) { index = pos i })) j c _
        (rw (length-set pq i (record (at pq j) { index = pos i })) hj)
      ∙ rw (get_or-set no_item pq i c (record (at pq j) { index = pos i }) hi)

  pub swapped-IsSwap : IsSwap (key pq) (key swapped) i j
  swapped-IsSwap c = ground (arith, at-swapped c)

  pub entries-swapped : entries swapped ≡ exchange (entry no_item) (entries pq) i j
  entries-swapped = rw (
    map-set entry (set pq i (record (at pq j) { index = pos i })) j
        (record (at pq i) { index = pos j }),
    map-set entry pq i (record (at pq j) { index = pos i }),
    get_or-map entry no_item pq i,
    get_or-map entry no_item pq j,
  )

  pub swapped-perm : Perm (entries swapped) (entries pq)
  swapped-perm = rw entries-swapped (
      exchange-perm (entry no_item) (entries pq) i j (rw (length-map entry pq) hi)
        (rw (length-map entry pq) hj))

  -- Sifting on from the exchanged queue sifts the queue.
  pub Sifted-swapped :
      (n : ℕ) (pq' : List Item) → i < n → j < n → Sifted n swapped pq' → Sifted n pq pq'
  Sifted-swapped n pq' small_i small_j s = record {
    heap = s.heap;
    size = s.size ∙ length-swapped;
    same = Perm.trans s.same swapped-perm;
    indexed = λ h. s.indexed (λ c q. ground (arith, at-swapped c, h c, length-swapped));
    beyond = λ c far. s.beyond c far ∙ ground (arith, at-swapped c);
  }

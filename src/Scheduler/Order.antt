-- ===== src/Scheduler/Order.antt =====
-- The order of a binary heap, stated of the keys at the indices below `n`.
use disguise.Common.{ℕ, zero, suc, ◌-◌, ◌/◌, ◌≤◌, ◌<◌, ◌≡◌, ◌≢◌, ◌==◌, if◌then◌else◌, arith}

abbrev pub parent : ℕ → ℕ
parent c = (c - 1) / 2

abbrev pub IsHeap : (ℕ → ℕ) → ℕ → Type 0
IsHeap key n = (c : ℕ) → 0 < c → c < n → key (parent c) ≤ key c

-- `key'` has the keys of `key` with those at `i` and `j` exchanged.
abbrev pub IsSwap : (ℕ → ℕ) → (ℕ → ℕ) → ℕ → ℕ → Type 0
IsSwap key key' i j = (c : ℕ) → key' c ≡ (if j == c then key i else if i == c then key j else key c)

-- In order but for the edge above `j`.
pub record IsRising (key : ℕ → ℕ) (n j : ℕ) : Type 0 where
  pub edges : (c : ℕ) → 0 < c → c < n → c ≢ j → key (parent c) ≤ key c
  pub across : (c : ℕ) → 0 < c → c < n → parent c ≡ j → 0 < j → key (parent j) ≤ key c

-- In order but for the edges below `i`.
pub record IsSinking (key : ℕ → ℕ) (n i : ℕ) : Type 0 where
  pub edges : (c : ℕ) → 0 < c → c < n → parent c ≢ i → key (parent c) ≤ key c
  pub across : (c : ℕ) → 0 < c → c < n → parent c ≡ i → 0 < i → key (parent i) ≤ key c

pub IsRising-step :
    (key key' : ℕ → ℕ) (n j : ℕ)
    → IsRising key n j
    → 0 < j
    → j < n
    → key j < key (parent j)
    → IsSwap key key' (parent j) j
    → IsRising key' n (parent j)
IsRising-step key key' n j r pos small lt s = record {
  edges = λ c p q ne. ground (arith, s c, s (parent c), r.edges c p q, r.across c p q);
  across = λ c p q e up.
      ground
        (arith, s c, s (parent (parent j)), r.edges c p q, r.edges (parent j) up (omega arith));
}

pub IsRising-done :
    (key : ℕ → ℕ) (n j : ℕ) → IsRising key n j → (0 < j → key (parent j) ≤ key j) → IsHeap key n
IsRising-done key n j r fits = λ c p q. ground (arith, r.edges c p q, fits)

pub IsSinking-step :
    (key key' : ℕ → ℕ) (n i m : ℕ)
    → IsSinking key n i
    → 0 < m
    → m < n
    → parent m ≡ i
    → key m < key i
    → ((c : ℕ) → 0 < c → c < n → parent c ≡ i → key m ≤ key c)
    → IsSwap key key' i m
    → IsSinking key' n m
IsSinking-step key key' n i m r pos small child lt least s = record {
  edges = λ c p q ne.
      ground (arith, s c, s (parent c), r.edges c p q, r.across m pos small, least c p q);
  across = λ c p q e up. ground (arith, s c, s (parent m), r.edges c p q);
}

pub IsSinking-done :
    (key : ℕ → ℕ) (n i : ℕ)
    → IsSinking key n i
    → ((c : ℕ) → 0 < c → c < n → parent c ≡ i → key i ≤ key c)
    → IsHeap key n
IsSinking-done key n i r fits = λ c p q. ground (arith, r.edges c p q, fits c p q)

-- The root of a heap has the least key.
root_least :
    (fuel : ℕ) (key : ℕ → ℕ) (n : ℕ) → IsHeap key n → (c : ℕ) → c < fuel → c < n → key 0 ≤ key c
root_least zero key n h c f q = absurd (omega arith)
root_least (suc fuel) key n h zero f q = omega arith
root_least (suc fuel) key n h (suc c) f q =
    ground (arith, h (suc c), root_least fuel key n h (parent (suc c)))

pub IsHeap-root : (key : ℕ → ℕ) (n : ℕ) → IsHeap key n → (c : ℕ) → c < n → key 0 ≤ key c
IsHeap-root key n h c q = root_least (suc c) key n h c (omega arith) q

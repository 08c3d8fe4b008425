-- ===== src/Keys/Expansion.antt =====
-- `pHash` against the P_hash of RFC 4346, section 5.
use disguise.Common.{
  ℕ, zero, suc, ◌+◌, ◌-◌, ◌*◌, ◌≤◌, ◌<◌, ◌≡◌, refl, sym, ap, ◌∙◌, inl, inr, Bool-cases, List, [],
  ◌∷◌, ◌++◌, ok, length, take, copy, copy_from, take_all, ltb, ltb→lt, lt→ltb, le→ltb,
  length-copy_from, arith,
}
use disguise.Keys.{Hash, p_loop, p_hash}
use native.Mathlib.Nat.{zero-sub, sub-zero, suc-sub-suc, suc-add, zero-add}
use mathlib.Core.List.{append-nil, append_assoc}

-- `A(i)` of the RFC, which starts with the seed.
abbrev pub chained : (List ℕ → List ℕ) → List ℕ → ℕ → List ℕ
chained mac seed zero = seed
chained mac seed (suc i) = mac (chained mac seed i)

-- The first `n` blocks from `A(i + 1)` on.
abbrev pub blocks : (List ℕ → List ℕ) → List ℕ → ℕ → ℕ → List ℕ
blocks mac seed i zero = []
blocks mac seed i (suc n) = mac (chained mac seed (suc i) ++ seed) ++ blocks mac seed (suc i) n

take-append : (n : ℕ) (xs ys : List ℕ) → take n (xs ++ ys) ≡ take n xs ++ take (n - length xs) ys
take-append zero xs ys = rw zero-sub
take-append (suc n) [] ys = rw sub-zero refl
take-append (suc n) (x ∷ xs) ys = ap (◌∷◌ x) (take-append n xs ys ∙ rw suc-sub-suc)

take-copy : (dst src : List ℕ) → take (length src) (copy dst src) ≡ take (length dst) src
take-copy [] [] = refl
take-copy [] (x ∷ src) = refl
take-copy (y ∷ dst) [] = refl
take-copy (y ∷ dst) (x ∷ src) = ap (◌∷◌ x) (take-copy dst src)

-- A block that is written at `j` follows what stands before it, cut off at the end.
take-copy_from :
    (j : ℕ) (dst src : List ℕ)
    → j ≤ length dst
    → take (j + length src) (copy_from j dst src) ≡ take j dst ++ take (length dst - j) src
take-copy_from zero dst src h = rw (zero-add, sub-zero) (take-copy dst src)
take-copy_from (suc j) [] src h = absurd (omega arith)
take-copy_from (suc j) (y ∷ dst) src h =
    rw (suc-add, suc-sub-suc) (ap (◌∷◌ y) (take-copy_from j dst src (omega arith)))

module _ (mac : List ℕ → List ℕ) (size : ℕ) (sized : (t : List ℕ) → length (mac t) ≡ size)
    (positive : 0 < size) where
  done :
      (j i n : ℕ) (result seed : List ℕ)
      → length result ≤ j
      → result ≡ take j result ++ take (length result - j) (blocks mac seed i n)
  done j i n result seed h =
      let over : length result - j ≡ 0 = omega (arith, h) in
      rw (over, append-nil (take j result)) (sym (take_all j result h))

  -- One round: the block is written, and the rest follows it.
  next_round_lem :
      (j : ℕ) (result block rest : List ℕ)
      → j ≤ length result
      → take (j + length block) (copy_from j result block)
          ++ take (length (copy_from j result block) - (j + length block)) rest
        ≡ take j result ++ take (length result - j) (block ++ rest)
  next_round_lem j result block rest h =
      let left : length result - j - length block
          ≡ length (copy_from j result block) - (j + length block) =
        omega (arith, length-copy_from j result block) in
      rw (take-copy_from j result block h, take-append (length result - j) block rest, left)
        (append_assoc (take j result) (take (length result - j) block)
          (take (length (copy_from j result block) - (j + length block)) rest))

  -- Where the result is full, the loop stops; elsewhere it writes a block.
  p_loop_stops :
      (fuel i n j : ℕ) (result seed a : List ℕ)
      → length result ≤ j
      → p_loop (suc fuel) mac result seed a j
        ≡ ok (take j result ++ take (length result - j) (blocks mac seed i n))
  unfolding p_loop
  p_loop_stops fuel i n j result seed a h =
      rw (p_loop, le→ltb j (length result) h) (ap ok (done j i n result seed h))

  p_loop_goes :
      (fuel j : ℕ) (result seed a : List ℕ)
      → j < length result
      → p_loop (suc fuel) mac result seed a j
        ≡ p_loop fuel mac
            (copy_from j result (mac (a ++ seed)))
            seed
            (mac a)
            (j + length (mac (a ++ seed)))
  unfolding p_loop
  p_loop_goes fuel j result seed a h = rw (p_loop, lt→ltb j (length result) h) refl

  -- The loop returns what stands before `j` with the blocks of the RFC after it.
  p_loop_lem :
      (fuel n i j : ℕ) (result seed : List ℕ)
      → length result ≤ j + fuel
      → length result ≤ j + n * size
      → p_loop (suc fuel) mac result seed (chained mac seed (suc i)) j
        ≡ ok (take j result ++ take (length result - j) (blocks mac seed i n))
  p_loop_lem zero n i j result seed f g =
      p_loop_stops zero i n j result seed (chained mac seed (suc i)) (omega (arith, f))
  p_loop_lem (suc fuel) zero i j result seed f g =
      p_loop_stops (suc fuel) i zero j result seed (chained mac seed (suc i)) (ground (arith, g))
  p_loop_lem (suc fuel) (suc n) i j result seed f g =
      let a = chained mac seed (suc i) in
      let block = mac (a ++ seed) in
      let written = length-copy_from j result block in
      elim (Bool-cases (ltb j (length result))) [
        | inl more ↦
            p_loop_goes (suc fuel) j result seed a (ltb→lt j (length result) more)
            ∙ p_loop_lem fuel n (suc i) (j + length block) (copy_from j result block) seed
                (omega (arith, f, written, sized (a ++ seed), positive))
                (grind (arith, g, written, sized (a ++ seed)))
            ∙ ap ok
                (next_round_lem j result block (blocks mac seed (suc i) n) (ground (arith, more)))
        | inr over ↦ p_loop_stops (suc fuel) i (suc n) j result seed a (ground (arith, over))
      ]

-- `pHash` fills the result, of any length, with the first bytes of the concatenation HMAC(secret,
-- A(1) + seed) + HMAC(secret, A(2) + seed) + ... of the RFC, from any number of blocks that are
-- enough.
pub p_hash_lem :
    (hash : Hash) (result secret seed : List ℕ) (n : ℕ)
    → ((key t : List ℕ) → length (hash.hmac key t) ≡ hash.size)
    → 0 < hash.size
    → length result ≤ n * hash.size
    → p_hash hash result secret seed
      ≡ ok (take (length result) (blocks (hash.hmac secret) seed 0 n))
unfolding p_hash
p_hash_lem hash result secret seed n sized positive enough =
    p_loop_lem (hash.hmac secret) hash.size (sized secret) positive (length result) n 0 0 result
      seed (omega arith) (omega (arith, enough))
    ∙ rw sub-zero refl

-- ===== src/Record/Sequence.antt =====
-- `incSeq`: the sequence number as a number.
use disguise.Common.{
  ℕ, zero, suc, ◌+◌, ◌/◌, ◌%◌, ◌^◌, ◌<◌, ◌≡◌, refl, ap, List, [], ◌∷◌, ◌++◌, ltb, ◌==◌,
  if◌then◌else◌, true, Bool-cases, inl, inr, some, set, get_elem?, length, ok, panic, arith,
}
use disguise.Common.Bytes.{be, length-be}
use disguise.Common.Crypto.{Crypto}
use disguise.Record.{HalfConn, inc_loop, inc_seq}
use mathlib.Core.List.{append_assoc, append-nil}
use native.Mathlib.Nat.{pow-suc}

get_last :
    (xs : List ℕ) (x : ℕ) (ys : List ℕ) (k : ℕ)
    → length xs ≡ k
    → get_elem? ((xs ++ (x ∷ [])) ++ ys) k ≡ some x
get_last [] x ys zero e = refl
get_last [] x ys (suc k) e = absurd (omega arith)
get_last (y ∷ xs) x ys zero e = absurd (omega arith)
get_last (y ∷ xs) x ys (suc k) e = get_last xs x ys k (omega arith)

set_last :
    (xs : List ℕ) (x v : ℕ) (ys : List ℕ) (k : ℕ)
    → length xs ≡ k
    → set ((xs ++ (x ∷ [])) ++ ys) k v ≡ xs ++ (v ∷ ys)
set_last [] x v ys zero e = refl
set_last [] x v ys (suc k) e = absurd (omega arith)
set_last (y ∷ xs) x v ys zero e = absurd (omega arith)
set_last (y ∷ xs) x v ys (suc k) e = ap (◌∷◌ y) (set_last xs x v ys k (omega arith))

-- Adding one to the number that the first `k` bytes stand for.
inc_loop-be :
    (k n : ℕ) (tail : List ℕ)
    → n < 256 ^ k
    → inc_loop k (be k n ++ tail)
      ≡ (if ltb (n + 1) (256 ^ k) then ok (be k (n + 1) ++ tail) else panic)
unfolding inc_loop be
inc_loop-be zero n tail small = ground arith
inc_loop-be (suc k) n tail small =
    let q = n / 256 in
    let v = (n % 256 + 1) % 256 in
    let read = get_last (be k q) (n % 256) tail k (length-be k q) in
    let written = set_last (be k q) (n % 256) v tail k (length-be k q) in
    elim (Bool-cases (v == 0)) [
      | inl carry ↦
          let back : v ≡ 0 = ground arith in
          let low : (n + 1) % 256 ≡ 0 = omega (arith, back) in
          let high : (n + 1) / 256 ≡ q + 1 = omega (arith, back) in
          let room : ltb (n + 1) (256 ^ suc k) ≡ ltb (q + 1) (256 ^ k) =
            ground (arith, pow-suc 256 k, back) in
          rw
            (read, carry, written, back, room, low, high, append_assoc (be k (q + 1)) (0 ∷ []) tail)
            (inc_loop-be k q (0 ∷ tail) (omega (arith, pow-suc 256 k)))
      | inr plain ↦
          let low : (n + 1) % 256 ≡ v = omega arith in
          let high : (n + 1) / 256 ≡ q = ground arith in
          let room : ltb (n + 1) (256 ^ suc k) ≡ true = ground (arith, pow-suc 256 k) in
          rw (read, plain, written, room, low, high, append_assoc (be k q) (v ∷ []) tail) refl
    ]

module _ ⦃C : Crypto⦄ where
  -- For a half-connection whose sequence number is the eight bytes of a number, `incSeq` makes it
  -- the eight bytes of the next number, or panics where that does not fit them.
  pub inc_seq-be :
      (hc : HalfConn) (n : ℕ)
      → n < 256 ^ 8
      → hc.seq ≡ be 8 n
      → inc_seq hc
        ≡ (if ltb (n + 1) (256 ^ 8) then ok (record hc { seq = be 8 (n + 1) }) else panic)
  unfolding inc_seq
  inc_seq-be hc n small e =
      let stepped : inc_loop 8 (be 8 n)
          ≡ (if ltb (n + 1) (256 ^ 8) then ok (be 8 (n + 1)) else panic) =
        rw (append-nil (be 8 n), append-nil (be 8 (n + 1))) at (inc_loop-be 8 n [] small) in
      rw (e, stepped) (ground arith)

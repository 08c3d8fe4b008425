-- ===== src/Common/Bytes.antt =====
-- Unsigned words and their big-endian bytes. A byte is a number below 256.
use disguise.Common.Tests.{leb}
use disguise.Common.Lists.{
  length, length-append, All, take, drop, take_append_left, drop_append_left,
}
use disguise.Common.Outcomes.{Outcome, ok, err, eof, unexpected_eof, ◌>>◌, check}
use disguise.Common.Tests.{if◌then◌else◌, ◌==◌}
use Prim.Native.Nat.{ℕ, zero, suc, ◌+◌, ◌-◌, ◌*◌, ◌/◌, ◌%◌, ◌^◌, ◌<◌}
use mathlib.Core.Path.{◌≡◌, refl, sym, ◌∙◌}
use mathlib.Core.List.{List, [], ◌∷◌, ◌++◌}
use mathlib.Core.Bool.{true, ◌&&◌}
use native.Mathlib.Nat.{pow-suc}
use native.Mathlib.Omega.{arith}

abbrev pub IsByte : ℕ → Type 0
IsByte b = b < 256

abbrev pub u16 : ℕ → ℕ
u16 n = n % 65536

abbrev pub u32 : ℕ → ℕ
u32 n = n % 4294967296

-- The `k` low bytes of `n`, the highest first.
unfoldable pub be : ℕ → ℕ → List ℕ
be zero n = []
be (suc k) n = be k (n / 256) ++ (n % 256 ∷ [])

-- The number that big-endian bytes stand for, on top of `acc`.
unfoldable pub from_be : ℕ → List ℕ → ℕ
from_be acc [] = acc
from_be acc (b ∷ bs) = from_be (acc * 256 + b) bs

from_be-append : (acc : ℕ) (xs ys : List ℕ) → from_be acc (xs ++ ys) ≡ from_be (from_be acc xs) ys
unfolding from_be
from_be-append acc [] ys = refl
from_be-append acc (x ∷ xs) ys = from_be-append (acc * 256 + x) xs ys

pub length-be : (k n : ℕ) → length (be k n) ≡ k
unfolding be
length-be zero n = refl
length-be (suc k) n =
    omega (arith, length-append (be k (n / 256)) (n % 256 ∷ []), length-be k (n / 256))

pub be-IsByte : (k n : ℕ) → All IsByte (be k n)
unfolding be
be-IsByte zero n = tt
be-IsByte (suc k) n = All-append (be k (n / 256)) (be-IsByte k (n / 256))
  where
    All-append : (xs : List ℕ) → All IsByte xs → All IsByte (xs ++ (n % 256 ∷ []))
    All-append [] h = omega arith
    All-append (x ∷ xs) h = (h.0, All-append xs h.1)

-- Reading back the bytes of a number that fits.
pub from_be-be : (k n : ℕ) → n < 256 ^ k → from_be 0 (be k n) ≡ n
unfolding be from_be
from_be-be zero n h = omega arith
from_be-be (suc k) n h =
    from_be-append 0 (be k (n / 256)) (n % 256 ∷ [])
    ∙ omega (arith, from_be-be k (n / 256) (omega (arith, pow-suc 256 k)))

-- `binary.Read` of an unsigned word of `k` bytes: the word, and what is left in the reader.
unfoldable pub read_be : ℕ → List ℕ → Outcome (ℕ × List ℕ)
read_be k bytes =
    if leb k (length bytes)
    then ok (from_be 0 (take k bytes), drop k bytes)
    else if length bytes == 0
    then err eof
    else err unexpected_eof

pub read_be-be : (k n : ℕ) (rest : List ℕ) → n < 256 ^ k → read_be k (be k n ++ rest) ≡ ok (n, rest)
unfolding read_be
read_be-be k n rest h =
    let fits : leb k (length (be k n ++ rest)) ≡ true =
      ground (arith, length-append (be k n) rest, length-be k n) in
    rw (
      fits,
      take_append_left k (be k n) rest (sym (length-be k n)),
      drop_append_left k (be k n) rest (sym (length-be k n)),
      from_be-be k n h,
    )

-- A slice `s[lo:hi]` of a slice whose backing array goes on with `spare` behind its length.
unfoldable pub slice : ℕ → ℕ → List ℕ → List ℕ → Outcome (List ℕ)
slice lo hi s spare = do
  check (leb lo hi && leb hi (length s + length spare))
  ok (take (hi - lo) (drop lo (s ++ spare)))

-- A slice `s[lo:]`, which ends where `s` ends.
unfoldable pub slice_from : ℕ → List ℕ → Outcome (List ℕ)
slice_from lo s = do check (leb lo (length s)); ok (drop lo s)

-- ===== src/Framing/Padding/Shape.antt =====
-- The length and the elements of what `generatePadding` gives.
use disguise.Common.{ℕ, zero, suc, ◌+◌, ◌-◌, ◌*◌, ◌/◌, ◌%◌, ◌≤◌, ◌<◌, ◌≡◌, refl, ap, List, [], ◌∷◌}
use disguise.Common.{ltb, ◌==◌, length, replicate, copy, length-copy}
use disguise.Common.{
  All, length-replicate, length-take, length-copy_from, arith, Bool-cases, inl, inr,
}
use disguise.Common.Bytes.{IsByte}
use disguise.Common.Everywhere.{All-take, All-replicate, All-copy, All-copy_from}
use disguise.Profile.{TrafficType, web_browsing, same_type}
use disguise.Framing.Padding.{
  random_bytes, base64_digit, base64_encode, clear_tenths, PaddingDraws, base64_padding,
  generate_padding,
}

pub length-random_bytes : (f : ℕ → ℕ) (i n : ℕ) → length (random_bytes f i n) ≡ n
unfolding random_bytes
length-random_bytes f i zero = refl
length-random_bytes f i (suc n) = ap suc (length-random_bytes f (i + 1) n)

length-clear_tenths : (k : ℕ) (bs : List ℕ) → length (clear_tenths k bs) ≡ length bs
unfolding clear_tenths
length-clear_tenths k [] = refl
length-clear_tenths k (b ∷ bs) = ap suc (length-clear_tenths (k + 1) bs)

-- Each group of three bytes becomes four digits.
length-base64_encode : (k : ℕ) (bs : List ℕ) → length bs ≡ k * 3 → length (base64_encode bs) ≡ k * 4
unfolding base64_encode
length-base64_encode zero [] h = refl
length-base64_encode zero (a ∷ bs) h = absurd (omega arith)
length-base64_encode (suc k) [] h = absurd (omega arith)
length-base64_encode (suc k) (a ∷ []) h = absurd (omega arith)
length-base64_encode (suc k) (a ∷ b ∷ []) h = absurd (omega arith)
length-base64_encode (suc k) (a ∷ b ∷ c ∷ r) h =
    omega (arith, length-base64_encode k r (omega arith))

length-base64_padding : (n : ℕ) (d : PaddingDraws) → length (base64_padding n d) ≡ n
unfolding base64_padding
length-base64_padding n d =
    let raw = random_bytes d.first 0 (n / 4 * 3) in
    let encoded = base64_encode raw in
    let filled = copy (replicate n 0) encoded in
    ground (
      arith,
      length-take n encoded,
      length-copy_from (length encoded) filled (random_bytes d.second 0 (n - length encoded)),
      length-copy (replicate n 0) encoded,
      length-replicate {A = ℕ} n 0,
    )

-- The base64 text of `n / 4 * 3` bytes never has to be cut.
pub base64_fits :
    (n : ℕ) (d : PaddingDraws) → length (base64_encode (random_bytes d.first 0 (n / 4 * 3))) ≤ n
base64_fits n d = omega (
  arith,
  length-base64_encode (n / 4) (random_bytes d.first 0 (n / 4 * 3)) (length-random_bytes _ 0 _),
)

-- `generatePadding` gives as many elements as it was asked for, whatever the kind of traffic and
-- the draws.
pub length-generate_padding :
    (n : ℕ) (t : TrafficType) (d : PaddingDraws) → length (generate_padding n t d) ≡ n
unfolding generate_padding
length-generate_padding n t d = ground (
  arith,
  length-base64_padding n d,
  length-clear_tenths 0 (random_bytes d.first 0 n),
  length-random_bytes d.first 0 n,
)

random_bytes-IsByte : (f : ℕ → ℕ) (i n : ℕ) → All IsByte (random_bytes f i n)
unfolding random_bytes
random_bytes-IsByte f i zero = tt
random_bytes-IsByte f i (suc n) = (omega arith, random_bytes-IsByte f (i + 1) n)

clear_tenths-IsByte : (k : ℕ) (bs : List ℕ) → All IsByte bs → All IsByte (clear_tenths k bs)
unfolding clear_tenths
clear_tenths-IsByte k [] h = tt
clear_tenths-IsByte k (b ∷ bs) h = (ground arith, clear_tenths-IsByte (k + 1) bs h.1)

base64_digit-IsByte : (n : ℕ) → n < 64 → IsByte (base64_digit n)
unfolding base64_digit
base64_digit-IsByte n h = ground arith

base64_encode-IsByte : (bs : List ℕ) → All IsByte bs → All IsByte (base64_encode bs)
unfolding base64_encode
base64_encode-IsByte [] h = tt
base64_encode-IsByte (a ∷ []) h = (
  base64_digit-IsByte (a / 4) (omega arith),
  (base64_digit-IsByte (a % 4 * 16) (omega arith), omega arith),
)
base64_encode-IsByte (a ∷ b ∷ []) h = (
  base64_digit-IsByte (a / 4) (omega arith),
  (
    base64_digit-IsByte (a % 4 * 16 + b / 16) (omega arith),
    (base64_digit-IsByte (b % 16 * 4) (omega arith), omega arith),
  ),
)
base64_encode-IsByte (a ∷ b ∷ c ∷ r) h = (
  base64_digit-IsByte (a / 4) (omega arith),
  (
    base64_digit-IsByte (a % 4 * 16 + b / 16) (omega arith),
    (
      base64_digit-IsByte (b % 16 * 4 + c / 64) (omega arith),
      (base64_digit-IsByte (c % 64) (omega arith), base64_encode-IsByte r h.1.1.1),
    ),
  ),
)

base64_padding-IsByte : (n : ℕ) (d : PaddingDraws) → All IsByte (base64_padding n d)
unfolding base64_padding
base64_padding-IsByte n d =
    let encoded = base64_encode (random_bytes d.first 0 (n / 4 * 3)) in
    let text = base64_encode-IsByte _ (random_bytes-IsByte d.first 0 (n / 4 * 3)) in
    let zeros = All-replicate IsByte n 0 (omega arith) in
    let filled = All-copy IsByte (replicate n 0) encoded zeros text in
    elim (Bool-cases (ltb n (length encoded))) [
      | inl e ↦ rw e (All-take IsByte n encoded text)
      | inr e ↦
          rw e (All-copy_from IsByte (length encoded) _ _ filled (random_bytes-IsByte d.second 0 _))
    ]

-- Every element that `generatePadding` gives is a byte, whatever the kind of traffic and the
-- draws.
pub generate_padding-IsByte :
    (n : ℕ) (t : TrafficType) (d : PaddingDraws) → All IsByte (generate_padding n t d)
unfolding generate_padding
generate_padding-IsByte n t d = elim (Bool-cases (n == 0)) [
  | inl e ↦ rw e tt
  | inr e ↦ rw e (elim (Bool-cases (same_type t web_browsing)) [
    | inl web ↦ rw web (elim (Bool-cases (d.coin % 2 == 0)) [
      | inl head ↦ rw head (base64_padding-IsByte n d)
      | inr tail ↦ rw tail (clear_tenths-IsByte 0 _ (random_bytes-IsByte d.first 0 n))
    ])
    | inr other ↦ rw other (random_bytes-IsByte d.first 0 n)
  ])
]

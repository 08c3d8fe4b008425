-- ===== src/Framing/Padding.antt =====
-- `generatePadding`, `generateRandomOffset` and `generateCellID` of disguise/framing/framing.go.
pub mod Shape
use disguise.Common.{ℕ, zero, suc, ◌+◌, ◌-◌, ◌*◌, ◌/◌, ◌%◌, ◌≡◌, refl, ap, List, [], ◌∷◌, ◌++◌}
use disguise.Common.{
  ltb, leb, ◌==◌, if◌then◌else◌, length, take, replicate, copy, length-copy, Option, none, some,
}
use disguise.Common.{
  All, length-append, length-replicate, length-take, length-copy_from, copy_from, arith,
}
use disguise.Common.Bytes.{u16, IsByte, from_be}
use disguise.Profile.{TrafficType, web_browsing, same_type}

-- The bytes that `crypto_rand.Read` gives, from the `i`-th on.
unfoldable pub random_bytes : (ℕ → ℕ) → ℕ → ℕ → List ℕ
random_bytes source i zero = []
random_bytes source i (suc n) = source i % 256 ∷ random_bytes source (i + 1) n

-- The alphabet of base64.StdEncoding.
unfoldable pub base64_digit : ℕ → ℕ
base64_digit n =
    if ltb n 26
    then n + 65
    else if ltb n 52
    then n + 71
    else if ltb n 62
    then n - 4
    else if n == 62
    then 43
    else 47

-- base64.StdEncoding.Encode: four digits for three bytes, with `=` where the last group is short.
unfoldable pub base64_encode : List ℕ → List ℕ
unfolding base64_digit
base64_encode [] = []
base64_encode (a ∷ []) = base64_digit (a / 4) ∷ base64_digit (a % 4 * 16) ∷ 61 ∷ 61 ∷ []
base64_encode (a ∷ b ∷ []) =
    base64_digit (a / 4) ∷ base64_digit (a % 4 * 16 + b / 16) ∷ base64_digit (b % 16 * 4) ∷ 61 ∷ []
base64_encode (a ∷ b ∷ c ∷ r) =
    base64_digit (a / 4)
    ∷ base64_digit (a % 4 * 16 + b / 16)
    ∷ base64_digit (b % 16 * 4 + c / 64)
    ∷ base64_digit (c % 64)
    ∷ base64_encode r

-- `padding[i] = 0x00` for every tenth byte; `k` is the place of the first element.
unfoldable pub clear_tenths : ℕ → List ℕ → List ℕ
clear_tenths k [] = []
clear_tenths k (b ∷ bs) = (if k % 10 == 0 then 0 else b) ∷ clear_tenths (k + 1) bs

-- The outcome of `rand.Intn(2)`, the bytes of the first read of `crypto_rand`, and those of the
-- second.
pub record PaddingDraws : Type 0 where
  pub coin : ℕ
  pub first : ℕ → ℕ
  pub second : ℕ → ℕ

unfoldable pub base64_padding : ℕ → PaddingDraws → List ℕ
unfolding random_bytes base64_encode
base64_padding n d =
    let encoded = base64_encode (random_bytes d.first 0 (n / 4 * 3)) in
    let filled = copy (replicate n 0) encoded in
    if ltb n (length encoded)
    then take n encoded
    else copy_from (length encoded) filled (random_bytes d.second 0 (n - length encoded))

-- `n` is the length, or 0 where that is negative.
unfoldable pub generate_padding : ℕ → TrafficType → PaddingDraws → List ℕ
unfolding base64_padding clear_tenths random_bytes
generate_padding n t d =
    if n == 0
    then []
    else if same_type t web_browsing
    then if d.coin % 2 == 0 then base64_padding n d else clear_tenths 0 (random_bytes d.first 0 n)
    else random_bytes d.first 0 n

-- `max` is a uint16; `rand.Intn(n)` is a draw modulo `n`.
unfoldable pub generate_random_offset : ℕ → ℕ → ℕ
generate_random_offset max draw = if leb max 1 then 0 else u16 (draw % (max - 1))

-- `none` is the error of `crypto_rand.Read`.
unfoldable pub generate_cell_id : Option (ℕ × ℕ) → ℕ
unfolding from_be
generate_cell_id none = 0
generate_cell_id (some (a, b)) = from_be 0 (a % 256 ∷ b % 256 ∷ [])

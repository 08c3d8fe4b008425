-- ===== src/Record/Padding.antt =====
-- `extractPadding` of conn.go.
pub mod Bits
pub mod Valid
pub mod Written
use disguise.Common.{
  ℕ, zero, suc, ◌+◌, ◌-◌, ◌*◌, ◌/◌, ◌%◌, List, ltb, ◌==◌, if◌then◌else◌, length, get_or,
}
use Prim.Native.Nat.{bit_and, bit_xor}

-- `byte(int32(^t) >> 31)`: ones where the 31st bit of `t` is zero.
unfoldable pub msb_mask : ℕ → ℕ
msb_mask t = if t / 2147483648 % 2 == 0 then 255 else 0

-- What one round leaves of `good`: `good &^= mask&paddingLen ^ mask&b`.
unfoldable pub kept : ℕ → ℕ → ℕ → ℕ → ℕ
kept good mask padding_len b =
    bit_and good (bit_xor (bit_xor (bit_and mask padding_len) (bit_and mask b)) 255)

-- The loop over `i`, with the rounds that are left.
unfoldable pub pad_loop : ℕ → ℕ → List ℕ → ℕ → ℕ → ℕ
pad_loop zero i payload padding_len good = good
pad_loop (suc n) i payload padding_len good =
    let mask = msb_mask ((padding_len + 18446744073709551616 - i) % 18446744073709551616) in
    let b = get_or payload (length payload - 1 - i) 0 in
    pad_loop n (i + 1) payload padding_len (kept good mask padding_len b)

-- The bits of `good` put together, and the result in every bit.
unfoldable pub spread : ℕ → ℕ
spread good =
    let a = bit_and good (good * 16 % 256) in
    let b = bit_and a (a * 4 % 256) in
    let c = bit_and b (b * 2 % 256) in if c / 128 == 0 then 0 else 255

unfoldable pub extract_padding : List ℕ → ℕ × ℕ
unfolding msb_mask pad_loop spread
extract_padding payload =
    let padding_len = get_or payload (length payload - 1) 0 in
    let t = (length payload - 1 + 18446744073709551616 - padding_len) % 18446744073709551616 in
    let to_check = if ltb (length payload) 256 then length payload else 256 in
    let good = spread (pad_loop to_check 0 payload padding_len (msb_mask t)) in
    if ltb (length payload) 1 then (0, 0) else (bit_and padding_len good + 1, good)

-- ===== src/Framing/Codec/Mismatch.antt =====
-- What `DecodeCell` makes of the bytes that `EncodeCell` writes.
use disguise.Common.{ℕ, ◌+◌, ◌≡◌, List, [], ◌++◌, length, length-append, arith}
use disguise.Common.{
  ok, err, length_mismatch, ◌==◌, false, ltb, drop, take, length-drop, ok-injective, >>=-eq-ok,
}
use disguise.Common.{replicate, length-replicate, copy, length-copy, copy_from, length-copy_from}
use disguise.Common.Bytes.{u16, slice, slice_from}
use disguise.Framing.{Cell, IsCell}
use disguise.Framing.Codec.{header, content, encode_cell, decode_content, decode_cell}
use disguise.Framing.Codec.Header.{length-header, read_header-header}
use disguise.Profile.{cell_header_len}

-- The content takes the sum of the two lengths, as a uint16.
pub length-content :
    (c : Cell) {body : List ℕ}
    → content c ≡ ok body
    → length body ≡ u16 (c.payload_len + c.padding_len)
unfolding content slice slice_from
length-content c e =
    let sum = u16 (c.payload_len + c.padding_len) in
    let after = u16 (c.rand_offset + c.payload_len) in
    let first = copy_from c.rand_offset (replicate sum 0) c.payload in
    let front = take c.rand_offset (drop 0 (c.padding ++ [])) in
    let back = drop c.rand_offset c.padding in
    ground (
      arith,
      length-copy_from after (copy first front) back,
      length-copy first front,
      length-copy_from c.rand_offset (replicate sum 0) c.payload,
      length-replicate {A = ℕ} sum 0,
    )

refused :
    (c : Cell) (body spare : List ℕ)
    → IsCell c
    → length body ≡ u16 (c.payload_len + c.padding_len)
    → decode_cell (header c ++ body) spare ≡ err length_mismatch
unfolding decode_cell decode_content
refused c body spare h size =
    let all = header c ++ body in
    let total : length all ≡ 22 + length body =
      omega (arith, length-append (header c) body, length-header c) in
    let long : ltb (length all) cell_header_len ≡ false = ground (arith, total) in
    let differs : (length (drop cell_header_len all) == u16 (c.payload_len + c.padding_len))
        ≡ false =
      ground (arith, total, size, length-drop cell_header_len all) in
    rw (long, read_header-header c body h, differs)

-- For a cell whose fields are in the ranges of their Go types, `DecodeCell` answers the bytes that
-- `EncodeCell` returns with the error for the content length, whatever lies behind them in memory.
pub decode_cell-encode_cell :
    (c : Cell) (bytes spare : List ℕ)
    → IsCell c
    → encode_cell c ≡ ok bytes
    → decode_cell bytes spare ≡ err length_mismatch
unfolding encode_cell
decode_cell-encode_cell c bytes spare h e =
    let (body, made, written) = >>=-eq-ok (content c) (λ body. ok (header c ++ body)) e in
    rw (← ok-injective written) (refused c body spare h (length-content c made))

-- ===== src/Framing/Codec.antt =====
-- `EncodeCell` and `DecodeCell` of disguise/framing/framing.go.
pub mod Ends
pub mod Header
pub mod Layout
pub mod Mismatch
use disguise.Common.{
  ℕ, ◌+◌, ◌-◌, ◌≡◌, List, [], ◌∷◌, ◌++◌, ltb, leb, ◌==◌, if◌then◌else◌, not, length, take, drop,
  replicate, copy, copy_from, Outcome, ok, err, cell_too_short, length_mismatch, ◌>>=◌, ◌>>◌, check,
}
use disguise.Common.Bytes.{be, read_be, u16, slice, slice_from}
use disguise.Profile.{cell_header_len}
use disguise.Framing.{Cell}

-- The eight `binary.Write` calls. Writing to a bytes.Buffer does not fail.
unfoldable pub header : Cell → List ℕ
header c =
    be 2 c.cell_id
    ++ (be 1 c.type
        ++ (be 1 c.flags
            ++ (be 4 c.seq
                ++ (be 8 c.timestamp
                    ++ (be 2 c.payload_len ++ (be 2 c.padding_len ++ be 2 c.rand_offset))))))

-- `totalContent`: zeros, over which the payload, the front of the padding and its back are copied.
-- The sums are sums of uint16. A padding's capacity is its length, as `generatePadding` makes it.
unfoldable pub content : Cell → Outcome (List ℕ)
content c = do
  let zeros = replicate (u16 (c.payload_len + c.padding_len)) 0
  let after = u16 (c.rand_offset + c.payload_len)
  check (leb c.rand_offset (length zeros))
  let with_payload = copy_from c.rand_offset zeros c.payload
  front ← slice 0 c.rand_offset c.padding []
  let with_front = copy with_payload front
  check (leb after (length with_front))
  back ← slice_from c.rand_offset c.padding
  ok (copy_from after with_front back)

unfoldable pub encode_cell : Cell → Outcome (List ℕ)
encode_cell c = do body ← content c; ok (header c ++ body)

-- What follows the header in `DecodeCell`; `spare` is what the array behind `data` holds past its
-- end, which the slice of the payload may reach.
unfoldable pub decode_content : Cell → List ℕ → List ℕ → Outcome Cell
decode_content c rest spare =
    let sum = u16 (c.payload_len + c.padding_len) in
    let after = u16 (c.rand_offset + c.payload_len) in
    let split : Outcome Cell = do
      middle ← slice c.rand_offset after rest spare
      front ← slice 0 c.rand_offset rest spare
      let padding = copy (replicate c.padding_len 0) front
      check (leb c.rand_offset (length padding))
      back ← slice_from after rest
      ok (record c {
        payload = copy (replicate c.payload_len 0) middle;
        padding = copy_from c.rand_offset padding back;
      })
    in if length rest == sum then split else err length_mismatch

unfoldable pub read_header : List ℕ → Outcome (Cell × List ℕ)
read_header bytes = do
  (cell_id, r1) ← read_be 2 bytes
  (type, r2) ← read_be 1 r1
  (flags, r3) ← read_be 1 r2
  (seq, r4) ← read_be 4 r3
  (timestamp, r5) ← read_be 8 r4
  (payload_len, r6) ← read_be 2 r5
  (padding_len, r7) ← read_be 2 r6
  (rand_offset, r8) ← read_be 2 r7
  ok (
    record {
      cell_id = cell_id;
      type = type;
      flags = flags;
      seq = seq;
      timestamp = timestamp;
      payload_len = payload_len;
      padding_len = padding_len;
      rand_offset = rand_offset;
      payload = [];
      padding = [];
    },
    r8,
  )

-- `payloadAndPadding` is what follows the first 20 bytes, wherever the reader stands.
unfoldable pub decode_cell : List ℕ → List ℕ → Outcome Cell
decode_cell bytes spare =
    let decoded =
      read_header bytes >>= λ (c, rest). decode_content c (drop cell_header_len bytes) spare in
    if ltb (length bytes) cell_header_len then err cell_too_short else decoded

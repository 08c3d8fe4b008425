-- ===== src/Framing/Codec/Layout.antt =====
-- Where the payload and the padding stand in a cell's content, as it is written and as it is read.
use disguise.Common.{
  ℕ, zero, suc, ◌+◌, ◌≤◌, ◌<◌, ◌≡◌, refl, ap, List, [], ◌∷◌, ◌++◌, length, length-append, arith,
}
use disguise.Common.{
  ok, panic, false, ltb, leb, drop, take, length-drop, length-take, if◌then◌else◌,
}
use disguise.Common.{
  replicate, length-replicate, copy, length-copy, copy_from, length-copy_from, copy_full,
  take_append_left, drop_append_left, take-append-drop, drop-drop,
}
use disguise.Common.Bytes.{u16, slice, slice_from}
use disguise.Framing.{Cell}
use disguise.Framing.Codec.{header, read_header, content, encode_cell, decode_content, decode_cell}
use disguise.Framing.Codec.Header.{blank}
use mathlib.Core.List.{append-nil}
use native.Mathlib.Nat.{suc-add, zero-add}

-- The lengths of a cell tell what it holds, and the content fits the uint16 of its length.
pub record IsWhole (c : Cell) : Type 0 where
  pub payload_counted : c.payload_len ≡ length c.payload
  pub padding_counted : c.padding_len ≡ length c.padding
  pub content_fits : c.payload_len + c.padding_len < 65536

-- The padding, with the payload put in behind its first RandOffset bytes.
abbrev pub arranged : Cell → List ℕ
arranged c = take c.rand_offset c.padding ++ (c.payload ++ drop c.rand_offset c.padding)

overlay_front :
    (zeros payload pad : List ℕ)
    → length zeros ≡ length payload + length pad
    → copy_from (length payload) (copy zeros payload) pad ≡ payload ++ pad
overlay_front [] [] pad h = copy_full [] pad (omega arith)
overlay_front (z ∷ zeros) [] pad h = copy_full (z ∷ zeros) pad (omega arith)
overlay_front [] (x ∷ payload) pad h = absurd (omega arith)
overlay_front (z ∷ zeros) (x ∷ payload) pad h =
    ap (◌∷◌ x) (overlay_front zeros payload pad (omega arith))

copy-nil : (l : List ℕ) → copy l [] ≡ l
copy-nil [] = refl
copy-nil (x ∷ l) = refl

-- The three copies into zeros.
overlay :
    (off : ℕ) (zeros payload pad : List ℕ)
    → off ≤ length pad
    → length zeros ≡ length payload + length pad
    → copy_from
        (off + length payload)
        (copy (copy_from off zeros payload) (take off pad))
        (drop off pad)
      ≡ take off pad ++ (payload ++ drop off pad)
overlay zero zeros payload pad h size =
    rw (copy-nil (copy zeros payload), zero-add (length payload))
      (overlay_front zeros payload pad size)
overlay (suc off) zeros payload [] h size = absurd (omega arith)
overlay (suc off) [] payload (y ∷ pad) h size = absurd (omega arith)
overlay (suc off) (z ∷ zeros) payload (y ∷ pad) h size =
    rw (suc-add off (length payload))
      (ap (◌∷◌ y) (overlay off zeros payload pad (omega arith) (omega arith)))

-- `EncodeCell` writes the arranged content, and panics exactly where RandOffset lies past the padding.
pub content_lem :
    (c : Cell)
    → IsWhole c
    → content c ≡ (if leb c.rand_offset c.padding_len then ok (arranged c) else panic)
unfolding content slice slice_from
content_lem c w =
    let zeros = replicate (u16 (c.payload_len + c.padding_len)) 0 in
    let first = copy_from c.rand_offset zeros c.payload in
    let front = take c.rand_offset c.padding in
    ground (
      arith,
      length-replicate {A = ℕ} (u16 (c.payload_len + c.padding_len)) 0,
      length-copy_from c.rand_offset zeros c.payload,
      length-copy first front,
      append-nil c.padding,
      overlay c.rand_offset zeros c.payload c.padding,
    )

take_front : (n : ℕ) (xs ys : List ℕ) → n ≤ length xs → take n (xs ++ ys) ≡ take n xs
take_front zero xs ys h = refl
take_front (suc n) [] ys h = absurd (omega arith)
take_front (suc n) (x ∷ xs) ys h = ap (◌∷◌ x) (take_front n xs ys (omega arith))

spare_unread :
    (off n : ℕ) (rest spare : List ℕ)
    → off + n ≤ length rest
    → take n (drop off (rest ++ spare)) ≡ take n (drop off rest)
spare_unread zero n rest spare h = take_front n rest spare (omega arith)
spare_unread (suc off) n [] spare h = absurd (omega arith)
spare_unread (suc off) n (x ∷ rest) spare h = spare_unread off n rest spare (omega arith)

-- The two copies into the padding.
copied :
    (off n : ℕ) (rest back : List ℕ)
    → off ≤ length rest
    → n ≡ off + length back
    → copy_from off (copy (replicate n 0) (take off rest)) back ≡ take off rest ++ back
copied zero n rest back h size =
    rw (copy-nil (replicate n 0))
      (copy_full (replicate n 0) back (omega (arith, length-replicate {A = ℕ} n 0)))
copied (suc off) zero rest back h size = absurd (omega arith)
copied (suc off) (suc n) [] back h size = absurd (omega arith)
copied (suc off) (suc n) (x ∷ rest) back h size =
    ap (◌∷◌ x) (copied off n rest back (omega arith) (omega arith))

-- How `DecodeCell` splits a content of the right length: RandOffset bytes of padding, the payload and
-- the rest of the padding. It panics exactly where RandOffset lies past the padding.
pub decode_content_lem :
    (c : Cell) (rest spare : List ℕ)
    → length rest ≡ c.payload_len + c.padding_len
    → c.payload_len + c.padding_len < 65536
    → decode_content c rest spare ≡ (
        if leb c.rand_offset c.padding_len
        then ok (record c {
          payload = take c.payload_len (drop c.rand_offset rest);
          padding = take c.rand_offset rest ++ drop (c.rand_offset + c.payload_len) rest;
        })
        else panic)
unfolding decode_content slice slice_from
decode_content_lem c rest spare size fits =
    let off = c.rand_offset in
    let front = take off (rest ++ spare) in
    ground (
      arith,
      length-append rest spare,
      length-replicate {A = ℕ} c.padding_len 0,
      length-replicate {A = ℕ} c.payload_len 0,
      length-copy (replicate c.padding_len 0) front,
      spare_unread off c.payload_len rest spare,
      take_front off rest spare,
      copied off c.padding_len rest (drop (off + c.payload_len) rest),
      length-drop (off + c.payload_len) rest,
      copy_full (replicate c.payload_len 0) (take c.payload_len (drop off rest)),
      length-take c.payload_len (drop off rest),
      length-drop off rest,
    )

-- `DecodeCell` on bytes whose header can be read, and that are 20 bytes longer than the two
-- lengths in it, with a sum within a uint16: it panics exactly where RandOffset is larger than the
-- padding length. Otherwise it returns the header's fields with the two parts of what follows the
-- first 20 bytes.
pub decode_cell_lem :
    (bytes spare : List ℕ) (c : Cell) (left : List ℕ)
    → read_header bytes ≡ ok (c, left)
    → length bytes ≡ 20 + (c.payload_len + c.padding_len)
    → c.payload_len + c.padding_len < 65536
    → decode_cell bytes spare ≡ (
        if leb c.rand_offset c.padding_len
        then ok (record c {
          payload = take c.payload_len (drop c.rand_offset (drop 20 bytes));
          padding =
              take c.rand_offset (drop 20 bytes)
              ++ drop (c.rand_offset + c.payload_len) (drop 20 bytes);
        })
        else panic)
unfolding decode_cell
decode_cell_lem bytes spare c left read size fits =
    let long : ltb (length bytes) 20 ≡ false = ground arith in
    rw (long, read)
      (decode_content_lem c (drop 20 bytes) spare (omega (arith, length-drop 20 bytes)) fits)

-- For a cell whose lengths are those of what it holds, with a sum within a uint16 and RandOffset
-- at most the padding length, what `DecodeCell` does behind the header, given the header's fields
-- and the content that `EncodeCell` arranges, gives the cell back.
pub decode_content-arranged :
    (c : Cell) (spare : List ℕ)
    → IsWhole c
    → c.rand_offset ≤ c.padding_len
    → decode_content (blank c) (arranged c) spare ≡ ok c
decode_content-arranged c spare w within =
    let off = c.rand_offset in
    let front = take off c.padding in
    let back = drop off c.padding in
    let front_size : off ≡ length front =
      omega (arith, length-take off c.padding, w.padding_counted) in
    ground (
      arith,
      decode_content_lem (blank c) (arranged c) spare,
      length-append front (c.payload ++ back),
      length-append c.payload back,
      length-drop off c.padding,
      take_append_left off front (c.payload ++ back),
      drop_append_left off front (c.payload ++ back),
      take_append_left c.payload_len c.payload back,
      drop_append_left c.payload_len c.payload back,
      drop-drop off c.payload_len (arranged c),
      take-append-drop off c.padding,
    )

-- `EncodeCell` on a cell whose lengths are those of what it holds, with a sum within a uint16: it
-- returns the header and then the padding with the payload behind its first RandOffset bytes, or
-- panics, and it panics exactly where RandOffset is larger than the padding length.
pub encode_cell_lem :
    (c : Cell)
    → IsWhole c
    → encode_cell c
      ≡ (if leb c.rand_offset c.padding_len then ok (header c ++ arranged c) else panic)
unfolding encode_cell
encode_cell_lem c w = ground (arith, content_lem c w)

-- ===== src/Framing/Codec/Header.antt =====
-- The header that `EncodeCell` writes and `DecodeCell` reads.
use disguise.Common.{ℕ, ◌≡◌, refl, List, [], ◌++◌, length, length-append}
use disguise.Common.{ok}
use disguise.Common.Bytes.{be, length-be, read_be-be}
use disguise.Framing.{Cell, IsCell}
use disguise.Framing.Codec.{header, read_header}
use mathlib.Core.List.{append_assoc}

-- A cell with no content, as it stands when its header has been read.
abbrev pub blank : Cell → Cell
blank c = record c { payload = []; padding = [] }

pub length-header : (c : Cell) → length (header c) ≡ 22
unfolding header
length-header c = simp (length-append, length-be) refl

header-append :
    (c : Cell) (body : List ℕ)
    → header c ++ body
      ≡ be 2 c.cell_id
        ++ (be 1 c.type
            ++ (be 1 c.flags
                ++ (be 4 c.seq
                    ++ (be 8 c.timestamp
                        ++ (be 2 c.payload_len
                            ++ (be 2 c.padding_len ++ (be 2 c.rand_offset ++ body)))))))
unfolding header
header-append c body = simp append_assoc

-- For a cell whose fields are in the ranges of their Go types, reading the header that was written
-- gives the fields back and leaves what follows.
pub read_header-header :
    (c : Cell) (body : List ℕ) → IsCell c → read_header (header c ++ body) ≡ ok (blank c, body)
unfolding read_header
read_header-header c body h = rw (
  header-append c body,
  read_be-be 2 c.cell_id _ h.cell_id_fits,
  read_be-be 1 c.type _ h.type_fits,
  read_be-be 1 c.flags _ h.flags_fits,
  read_be-be 4 c.seq _ h.seq_fits,
  read_be-be 8 c.timestamp _ h.timestamp_fits,
  read_be-be 2 c.payload_len _ h.payload_len_fits,
  read_be-be 2 c.padding_len _ h.padding_len_fits,
  read_be-be 2 c.rand_offset _ h.rand_offset_fits,
)

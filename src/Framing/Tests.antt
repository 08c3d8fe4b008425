-- ===== src/Framing/Tests.antt =====
-- Concrete runs of the framing, and its theorems at concrete inputs.
use disguise.Common.{
  ℕ, ◌+◌, ◌*◌, ◌≡◌, refl, List, [], ◌∷◌, ◌++◌, Bool, if◌then◌else◌, some, arith, leb, length, drop,
  take,
}
use disguise.Common.{ok, err, panic, length_mismatch}
use disguise.Common.Bytes.{be, read_be, from_be, slice, slice_from}
use disguise.Common.Maps.{lookup}
use disguise.Common.Fixed.{fixed}
use disguise.Profile.{web_browsing, get_profile}
use disguise.Profile.Draws.{get_profile-IsUsable}
use disguise.Framing.{Cell, IsCell, Framer, new_framer, type_data}
use disguise.Framing.Codec.{header, content, read_header, encode_cell, decode_cell}
use disguise.Framing.Codec.Mismatch.{decode_cell-encode_cell}
use disguise.Framing.Codec.Layout.{IsWhole, arranged, decode_cell_lem, encode_cell_lem}
use disguise.Framing.Padding.{PaddingDraws, generate_padding, generate_cell_id}
use disguise.Framing.Fragment.{CellDraws, fragment}
use disguise.Framing.Fragment.Cells.Run.{IsRun, wants_of}
use disguise.Framing.Reassembly.{Reassembler, new_reassembler, receive}
use disguise.Framing.Reassembly.Receive.{Leaves, Untouched}
use disguise.Framing.Transfer.{EndsWith, receive-fragment}

-- Two bytes of payload behind one of three bytes of padding.
abbrev cell : Cell
cell = record {
  cell_id = 513;
  type = type_data;
  flags = 1;
  seq = 7;
  timestamp = 1000;
  payload_len = 2;
  padding_len = 3;
  rand_offset = 1;
  payload = 72 ∷ 105 ∷ [];
  padding = 10 ∷ 11 ∷ 12 ∷ [];
}

abbrev encoding : List ℕ
encoding =
    2 ∷ 1 ∷ 1 ∷ 1 ∷ 0 ∷ 0 ∷ 0 ∷ 7 ∷ 0 ∷ 0 ∷ 0 ∷ 0 ∷ 0 ∷ 0 ∷ 3 ∷ 232 ∷ 0 ∷ 2 ∷ 0 ∷ 3 ∷ 0 ∷ 1 ∷ 10
    ∷ 72 ∷ 105 ∷ 11 ∷ 12 ∷ []

encode-cell : encode_cell cell ≡ ok encoding
unfolding encode_cell header content slice slice_from be
encode-cell = refl

-- With RandOffset past the padding the encoder panics.
encode-misplaced : encode_cell (record cell { rand_offset = 4 }) ≡ panic
unfolding encode_cell header content slice
encode-misplaced = refl

cell-IsCell : IsCell cell
cell-IsCell = record {
  cell_id_fits = omega arith;
  type_fits = omega arith;
  flags_fits = omega arith;
  seq_fits = omega arith;
  timestamp_fits = omega arith;
  payload_len_fits = omega arith;
  padding_len_fits = omega arith;
  rand_offset_fits = omega arith;
}

cell-IsWhole : IsWhole cell
cell-IsWhole = record { payload_counted = refl; padding_counted = refl; content_fits = omega arith }

decode_cell-encode_cell_example : decode_cell encoding [] ≡ err length_mismatch
decode_cell-encode_cell_example = decode_cell-encode_cell cell encoding [] cell-IsCell encode-cell

encode_cell_lem_example :
    encode_cell cell
    ≡ (if leb cell.rand_offset cell.padding_len then ok (header cell ++ arranged cell) else panic)
encode_cell_lem_example = encode_cell_lem cell cell-IsWhole

-- A header for seven bytes that claims an offset of 9, and five bytes.
abbrev hostile : List ℕ
hostile =
    2 ∷ 1 ∷ 1 ∷ 1 ∷ 0 ∷ 0 ∷ 0 ∷ 7 ∷ 0 ∷ 0 ∷ 0 ∷ 0 ∷ 0 ∷ 0 ∷ 3 ∷ 232 ∷ 0 ∷ 5 ∷ 0 ∷ 2 ∷ 0 ∷ 9 ∷ 1 ∷ 2
    ∷ 3 ∷ 4 ∷ 5 ∷ []

abbrev claimed : Cell
claimed = record cell {
  payload_len = 5;
  padding_len = 2;
  rand_offset = 9;
  payload = [];
  padding = [];
}

read-hostile : read_header hostile ≡ ok (claimed, 1 ∷ 2 ∷ 3 ∷ 4 ∷ 5 ∷ [])
unfolding read_header read_be from_be
read-hostile = refl

decode_cell_lem_example : decode_cell hostile [] ≡ (
    if leb claimed.rand_offset claimed.padding_len
    then ok (record claimed {
      payload = take claimed.payload_len (drop claimed.rand_offset (drop 20 hostile));
      padding =
          take claimed.rand_offset (drop 20 hostile)
          ++ drop (claimed.rand_offset + claimed.payload_len) (drop 20 hostile);
    })
    else panic)
decode_cell_lem_example =
    decode_cell_lem hostile [] claimed (1 ∷ 2 ∷ 3 ∷ 4 ∷ 5 ∷ []) read-hostile refl (omega arith)

abbrev padding_draws : PaddingDraws
padding_draws = record { coin = 0; first = λ i. i * 7; second = λ i. i }

generate_padding-base64 :
    generate_padding 6 web_browsing padding_draws ≡ 65 ∷ 65 ∷ 99 ∷ 79 ∷ 0 ∷ 1 ∷ []
unfolding generate_padding
generate_padding-base64 = refl

abbrev framer : Framer
framer = new_framer (get_profile web_browsing)

abbrev draws : ℕ → CellDraws
draws i = record {
  now = 1000;
  length = record { choice = 500; uniform = 100; normal = 0 };
  size = 36;
  padding = padding_draws;
  offset = 3;
}

abbrev greeting : List ℕ
greeting = 104 ∷ 101 ∷ 108 ∷ 108 ∷ 111 ∷ []

receive-fragment_example :
    (cells : List Cell) × (f' : Framer) × (r' : Reassembler) × (flagged : Bool) × (fragment framer
        greeting
        (some (1, 2))
        draws
      ≡ ok (cells, f'))
    × (receive new_reassembler cells ≡ ok ((if flagged then greeting ∷ [] else []), r'))
    × Leaves r' (generate_cell_id (some (1, 2))) f'.seq greeting flagged
    × EndsWith (length greeting) (wants_of framer.profile draws) 0 flagged
    × Untouched (generate_cell_id (some (1, 2))) new_reassembler r'
unfolding new_framer new_reassembler lookup
receive-fragment_example =
    receive-fragment framer greeting (some (1, 2)) draws new_reassembler
      (get_profile-IsUsable web_browsing) (omega arith) refl

abbrev wanted_three : ℕ → ℕ
wanted_three i = 3

-- The cell, as the whole of a run of two bytes of which three were wanted.
one_cell : IsRun 7 513 (72 ∷ 105 ∷ []) wanted_three 0 (cell ∷ [])
one_cell = (
  omega arith,
  record {
    of_stream = refl;
    of_data = refl;
    in_order = refl;
    front = refl;
    ended = refl;
    whole = cell-IsWhole;
    positive = omega arith;
  },
  refl,
)

-- ===== src/Framing/Fragment.antt =====
-- `Fragment` and `CreateDummyCell` of disguise/framing/framing.go.
pub mod Cells
use disguise.Common.{
  ℕ, zero, suc, ◌+◌, ◌-◌, ◌≡◌, List, [], ◌∷◌, ltb, if◌then◌else◌, length, take, drop, Option,
}
use disguise.Common.{Outcome, ok, out_of_fuel, ◌>>=◌}
use disguise.Common.Bytes.{u16, u32}
use disguise.Common.Floats.{Floats}
use disguise.Profile.{
  Profile, LengthDraws, TrafficType, web_browsing, only_type, cell_header_len,
  get_next_payload_length, get_next_cell_size,
}
use disguise.Framing.{Cell, Framer, type_data, type_dummy}
use disguise.Framing.Padding.{
  PaddingDraws, generate_padding, generate_random_offset, generate_cell_id,
}

module _ ⦃F : Floats⦄ where
  -- What one cell takes from the clock (in milliseconds) and from the generators.
  pub record CellDraws : Type 0 where
    pub now : ℕ
    pub length : LengthDraws
    pub size : ℕ
    pub padding : PaddingDraws
    pub offset : ℕ

  unfoldable pub padding_type : Profile → TrafficType
  unfolding only_type
  padding_type p = only_type p.traffic_weights web_browsing

  -- The cell of one round of the loop of `Fragment`: `rest` is `data[payloadOffset:]`, `want` the
  -- drawn payload length and `total` the drawn cell size. The padding length is 0 where the difference
  -- is negative, as `-` on ℕ has it.
  unfoldable pub make_cell : Framer → ℕ → List ℕ → ℕ → ℕ → CellDraws → Cell
  make_cell f id rest want total d =
      let past = ltb (length rest) want in
      let n = if past then length rest else want in
      let padding_len = total - cell_header_len - n in
      record {
        cell_id = id;
        type = type_data;
        flags = if past then 1 else 0;
        seq = f.seq;
        timestamp = d.now;
        payload_len = u16 n;
        padding_len = u16 padding_len;
        rand_offset = generate_random_offset (u16 total) d.offset;
        payload = take n rest;
        padding = generate_padding padding_len (padding_type f.profile) d.padding;
      }

  -- One round of that loop.
  unfoldable pub next_cell : Framer → ℕ → List ℕ → CellDraws → Outcome (Cell × Framer)
  unfolding make_cell
  next_cell f id rest d = do
    (want, p) ← get_next_payload_length f.profile d.length
    total ← get_next_cell_size p d.size
    let f' = record f { profile = p }
    ok (make_cell f' id rest want total d, record f' { seq = u32 (f.seq + 1) })

  -- The loop. Each round takes a byte at least, so as many rounds as there are bytes are enough.
  unfoldable pub fragment_loop :
      ℕ → Framer → ℕ → List ℕ → (ℕ → CellDraws) → ℕ → Outcome (List Cell × Framer)
  fragment_loop fuel f id [] draws i = ok ([], f)
  fragment_loop zero f id (b ∷ rest) draws i = out_of_fuel
  fragment_loop (suc fuel) f id (b ∷ rest) draws i = do
    (cell, f') ← next_cell f id (b ∷ rest) (draws i)
    let left = drop (length cell.payload) (b ∷ rest)
    (cells, f'') ← fragment_loop fuel f' id left draws (i + 1)
    ok (cell ∷ cells, f'')

  unfoldable pub fragment :
      Framer → List ℕ → Option (ℕ × ℕ) → (ℕ → CellDraws) → Outcome (List Cell × Framer)
  fragment f bytes id draws = fragment_loop (length bytes) f (generate_cell_id id) bytes draws 0

  -- The dummy cell of `total` bytes; `uint16(paddingLen)` of a length that may be negative is written out.
  unfoldable pub make_dummy : Framer → ℕ → CellDraws → Cell
  make_dummy f total d = record {
    cell_id = 0;
    type = type_dummy;
    flags = 0;
    seq = 0;
    timestamp = d.now;
    payload_len = 0;
    padding_len = u16 (total + 65536 - cell_header_len);
    rand_offset = generate_random_offset (u16 total) d.offset;
    payload = [];
    padding = generate_padding (total - cell_header_len) (padding_type f.profile) d.padding;
  }

  unfoldable pub create_dummy_cell : Framer → CellDraws → Outcome Cell
  create_dummy_cell f d = do total ← get_next_cell_size f.profile d.size; ok (make_dummy f total d)

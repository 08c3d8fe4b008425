-- ===== src/Framing/Fragment/Cells.antt =====
-- What the cells of one `Fragment` hold.
pub mod Run
use disguise.Common.{
  ℕ, zero, suc, ◌+◌, ◌-◌, ◌%◌, ◌^◌, ◌≤◌, ◌<◌, ◌≡◌, refl, sym, ◌∙◌, ap, List, [], ◌∷◌, ◌++◌, ltb,
  if◌then◌else◌, length, take, drop, arith,
}
use disguise.Common.{Outcome, ok, out_of_fuel, ◌>>=◌, Bool, true, false, length-take, take_all}
use disguise.Common.Bytes.{u16, u32}
use disguise.Common.Floats.{Floats}
use disguise.Profile.{
  Profile, LengthDraws, update_load, cell_header_len, get_next_payload_length, get_next_cell_size,
}
use disguise.Profile.Draws.{
  IsUsable, IsUsable-update_load, wanted, wanted-update_load, get_next_payload_length_lem,
  get_next_cell_size_lem,
}
use disguise.Framing.{Cell, IsCell, Framer, type_data}
use disguise.Framing.Padding.{generate_padding, generate_random_offset}
use disguise.Framing.Padding.Shape.{length-generate_padding}
use disguise.Framing.Codec.Layout.{IsWhole}
use disguise.Framing.Fragment.{CellDraws, make_cell, next_cell, padding_type}

-- A cell made from the front of `rest`, where `want` bytes were wanted.
pub record IsCut (seq id : ℕ) (rest : List ℕ) (want : ℕ) (c : Cell) : Type 0 where
  pub of_stream : c.cell_id ≡ id
  pub of_data : c.type ≡ type_data
  pub in_order : c.seq ≡ seq
  pub front : c.payload ≡ take want rest
  pub ended : c.flags ≡ (if ltb (length rest) want then 1 else 0)
  pub whole : IsWhole c
  pub positive : 1 ≤ want

module _ ⦃F : Floats⦄ where
  -- The framer after one cell.
  unfoldable pub advanced : Framer → CellDraws → Framer
  advanced f d = record f {
    profile = update_load f.profile (wanted f.profile d.length);
    seq = u32 (f.seq + 1);
  }

  make_cell-IsCut :
      (f : Framer) (id : ℕ) (rest : List ℕ) (want total : ℕ) (d : CellDraws)
      → 1 ≤ want
      → want < 65536
      → total < 65536
      → IsCut f.seq id rest want (make_cell f id rest want total d)
  unfolding make_cell
  make_cell-IsCut f id rest want total d positive small narrow =
      let past = ltb (length rest) want in
      let n = if past then length rest else want in
      let padding_len = total - cell_header_len - n in
      record {
        of_stream = refl;
        of_data = refl;
        in_order = refl;
        front = ground (arith, take_all want rest, take_all (length rest) rest);
        ended = refl;
        whole = record {
          payload_counted = ground (arith, length-take n rest);
          padding_counted =
              ground
                (arith, length-generate_padding padding_len (padding_type f.profile) d.padding);
          content_fits = ground arith;
        };
        positive = positive;
      }

  make_cell-IsCell :
      (f : Framer) (id : ℕ) (rest : List ℕ) (want total : ℕ) (d : CellDraws)
      → d.now < 256 ^ 8
      → id < 65536
      → f.seq < 4294967296
      → IsCell (make_cell f id rest want total d)
  unfolding make_cell generate_random_offset
  make_cell-IsCell f id rest want total d stamped named numbered = record {
    cell_id_fits = named;
    type_fits = omega arith;
    flags_fits = ground arith;
    seq_fits = numbered;
    timestamp_fits = stamped;
    payload_len_fits = omega arith;
    padding_len_fits = omega arith;
    rand_offset_fits = ground arith;
  }

  -- On a usable profile a round of `Fragment` makes a cell from the front of what is left: as many
  -- bytes as the profile wants, or all with the end-of-stream flag where it wants more than there are.
  -- Its fields are in range.
  pub next_cell_lem :
      (f : Framer) (id : ℕ) (rest : List ℕ) (d : CellDraws)
      → IsUsable f.profile
      → (c : Cell) × (next_cell f id rest d ≡ ok (c, advanced f d))
        × IsCut f.seq id rest (wanted f.profile d.length) c
        × (d.now < 256 ^ 8 → id < 65536 → f.seq < 4294967296 → IsCell c)
  unfolding next_cell advanced
  next_cell_lem f id rest d u =
      let want = wanted f.profile d.length in
      let (made, lo, hi) = get_next_payload_length_lem f.profile d.length u in
      let f' = record f { profile = update_load f.profile want } in
      let (total, sized, least, most) =
        get_next_cell_size_lem f'.profile d.size (IsUsable-update_load f.profile want u) in
      (
        make_cell f' id rest want total d,
        rw (made, sized),
        make_cell-IsCut f' id rest want total d lo (omega (arith, u.narrow))
            (omega (arith, u.narrow, most, same_size)),
        make_cell-IsCell f' id rest want total d,
      )
    where
      same_size :
          (update_load f.profile (wanted f.profile d.length)).max_cell_size
          ≡ f.profile.max_cell_size
      same_size = unfold update_load in refl

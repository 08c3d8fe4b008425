-- ===== src/Framing.antt =====
-- disguise/framing/framing.go: cells, and what the framer keeps. The Go field `Timestamp` is an
-- int64; here it is its 64-bit pattern.
pub mod Codec
pub mod Padding
pub mod Fragment
pub mod Reassembly
pub mod Transfer
mod Tests
use disguise.Common.{ℕ, ◌^◌, ◌<◌, ◌≡◌, List, length, All}
use disguise.Common.Bytes.{IsByte}
use disguise.Common.Floats.{Floats}
use disguise.Profile.{Profile}

abbrev pub type_data : ℕ
type_data = 1

abbrev pub type_dummy : ℕ
type_dummy = 4

pub record Cell : Type 0 where
  pub cell_id : ℕ
  pub type : ℕ
  pub flags : ℕ
  pub seq : ℕ
  pub timestamp : ℕ
  pub payload_len : ℕ
  pub padding_len : ℕ
  pub rand_offset : ℕ
  pub payload : List ℕ
  pub padding : List ℕ

-- The ranges of the Go field types.
pub record IsCell (c : Cell) : Type 0 where
  pub cell_id_fits : c.cell_id < 256 ^ 2
  pub type_fits : c.type < 256 ^ 1
  pub flags_fits : c.flags < 256 ^ 1
  pub seq_fits : c.seq < 256 ^ 4
  pub timestamp_fits : c.timestamp < 256 ^ 8
  pub payload_len_fits : c.payload_len < 256 ^ 2
  pub padding_len_fits : c.padding_len < 256 ^ 2
  pub rand_offset_fits : c.rand_offset < 256 ^ 2

module _ ⦃F : Floats⦄ where
  pub record Framer : Type 0 where
    pub profile : Profile
    pub seq : ℕ

  unfoldable pub new_framer : Profile → Framer
  new_framer p = record { profile = p; seq = 0 }

  unfoldable pub set_profile : Framer → Profile → Framer
  set_profile f p = record f { profile = p }

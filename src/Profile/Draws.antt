-- ===== src/Profile/Draws.antt =====
-- What the draws of a profile can be, whatever math/rand and the machine's float64 give.
use disguise.Common.{ℕ, ◌+◌, ◌-◌, ◌%◌, ◌≤◌, ◌<◌, ◌≡◌, refl, ok, arith, none, some, Option, [], ◌∷◌}
use disguise.Common.{inl, inr, ◌⊎◌, lt→ltb}
use disguise.Common.Int.{ℤ, pos, negsuc}
use disguise.Common.Floats.{Floats}
use disguise.Profile.{
  TrafficType, web_browsing, video_streaming, file_download, dynamic, Profile, Distribution,
  LengthDraws, get_profile, get_profile_type, select_traffic_type, pick, lookup, clamp, sample,
  update_load, get_next_payload_length, get_next_cell_size,
}

pub clamp_bounds : (most : ℕ) (z : ℤ) → (1 ≤ clamp most z) × (clamp most z ≤ (most - 21) + 1)
unfolding clamp
clamp_bounds most (pos n) = ground arith
clamp_bounds most (negsuc n) = omega arith

module _ ⦃F : Floats⦄ where
  -- A profile with weights for all three kinds of traffic, or one kind alone, that has a
  -- distribution for each, room between its smallest and its largest cell, and cells whose size
  -- fits a uint16.
  pub record IsUsable (p : Profile) : Type 0 where
    pub covered :
        (r : F.Float)
        → (d : Distribution) × (lookup (select_traffic_type p r) p.payload_distributions ≡ some d)
    pub spread : p.min_cell_size < p.max_cell_size
    pub narrow : p.max_cell_size < 65536

  pick-web_video_file :
      (r c w v f : F.Float)
      → (pick r c ((web_browsing, w) ∷ (video_streaming, v) ∷ (file_download, f) ∷ [])
          ≡ web_browsing)
        ⊎ (pick r c ((web_browsing, w) ∷ (video_streaming, v) ∷ (file_download, f) ∷ [])
            ≡ video_streaming)
        ⊎ (pick r c ((web_browsing, w) ∷ (video_streaming, v) ∷ (file_download, f) ∷ [])
            ≡ file_download)
  unfolding pick
  pick-web_video_file r c w v f = ground arith

  -- Every profile that `GetProfile` returns is usable: it has a distribution for each type that it
  -- can select, its smallest cell is smaller than its largest, and that fits a uint16.
  pub get_profile-IsUsable : (t : TrafficType) → IsUsable (get_profile t)
  unfolding get_profile select_traffic_type lookup
  get_profile-IsUsable web_browsing = record {
    covered = λ r. (_, refl);
    spread = omega arith;
    narrow = omega arith;
  }
  get_profile-IsUsable video_streaming = record {
    covered = λ r. (_, refl);
    spread = omega arith;
    narrow = omega arith;
  }
  get_profile-IsUsable file_download = record {
    covered = λ r. (_, refl);
    spread = omega arith;
    narrow = omega arith;
  }
  get_profile-IsUsable dynamic = record {
    covered = λ r.
        elim (pick-web_video_file r (F.constant 0 0) (F.constant 7 1) (F.constant 2 1)
          (F.constant 1 1)) [
            | inl e ↦ rw e (_, refl)
            | inr (inl e) ↦ rw e (_, refl)
            | inr (inr e) ↦ rw e (_, refl)
          ];
    spread = omega arith;
    narrow = omega arith;
  }

  -- The type of the profile that `GetProfile` returns for a type is that type.
  pub get_profile_type-get_profile : (t : TrafficType) → get_profile_type (get_profile t) ≡ t
  unfolding get_profile get_profile_type
  get_profile_type-get_profile web_browsing = refl
  get_profile_type-get_profile video_streaming = refl
  get_profile_type-get_profile file_download = refl
  get_profile_type-get_profile dynamic = refl

  pub IsUsable-update_load : (p : Profile) (n : ℕ) → IsUsable p → IsUsable (update_load p n)
  unfolding update_load select_traffic_type
  IsUsable-update_load p n u = record { covered = u.covered; spread = u.spread; narrow = u.narrow }

  unfoldable pub drawn : ℕ → LengthDraws → Option Distribution → ℕ
  drawn most d none = 0
  drawn most d (some dist) = clamp most (sample dist d)

  -- The length that `GetNextPayloadLength` returns, where it returns.
  unfoldable pub wanted : Profile → LengthDraws → ℕ
  unfolding drawn select_traffic_type
  wanted p d =
      drawn p.max_cell_size d (lookup (select_traffic_type p d.choice) p.payload_distributions)

  -- The load has no influence on it.
  pub wanted-update_load :
      (p : Profile) (n : ℕ) (d : LengthDraws) → wanted (update_load p n) d ≡ wanted p d
  unfolding wanted update_load
  wanted-update_load p n d = refl

  -- On a usable profile `GetNextPayloadLength` returns the wanted length and changes the load
  -- only. The length is at least 1 and at most the larger of 1 and MaxCellSize - 20.
  pub get_next_payload_length_lem :
      (p : Profile) (d : LengthDraws)
      → IsUsable p
      → (get_next_payload_length p d ≡ ok (wanted p d, update_load p (wanted p d)))
        × (1 ≤ wanted p d)
        × (wanted p d ≤ (p.max_cell_size - 21) + 1)
  unfolding wanted get_next_payload_length
  get_next_payload_length_lem p d u =
      let (dist, e) = u.covered d.choice in
      let (lo, hi) = clamp_bounds p.max_cell_size (sample dist d) in rw e (refl, lo, hi)

  -- On a usable profile `GetNextCellSize` returns a size from MinCellSize up to MaxCellSize - 1.
  pub get_next_cell_size_lem :
      (p : Profile) (draw : ℕ)
      → IsUsable p
      → (n : ℕ) × (get_next_cell_size p draw ≡ ok n) × (p.min_cell_size ≤ n) × (n < p.max_cell_size)
  unfolding get_next_cell_size
  get_next_cell_size_lem p draw u = (
    draw % (p.max_cell_size - p.min_cell_size) + p.min_cell_size,
    rw (lt→ltb p.min_cell_size p.max_cell_size u.spread),
    omega arith,
    omega (arith, u.spread),
  )

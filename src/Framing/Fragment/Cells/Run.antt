-- ===== src/Framing/Fragment/Cells/Run.antt =====
-- The cells of one `Fragment` as a whole: a run that cuts the data up.
use disguise.Common.{
  ℕ, zero, suc, ◌+◌, ◌^◌, ◌≤◌, ◌<◌, ◌≡◌, refl, sym, ◌∙◌, List, [], ◌∷◌, ◌++◌, length, take, drop,
  arith,
}
use disguise.Common.{ok, length-drop, take-append-drop, Option, All}
use disguise.Common.Bytes.{u32}
use disguise.Common.Floats.{Floats}
use disguise.Profile.{Profile, LengthDraws}
use disguise.Profile.Draws.{IsUsable, IsUsable-update_load, wanted, wanted-update_load}
use disguise.Framing.{Cell, IsCell, Framer}
use disguise.Framing.Padding.{generate_cell_id}
use disguise.Common.{none, some}
use disguise.Framing.Fragment.{CellDraws, fragment_loop, fragment}
use disguise.Framing.Fragment.Cells.{IsCut, advanced, next_cell_lem}

-- The cells, numbered from `seq` on, cut up `rest`, where `wants` gives the wanted lengths from the
-- `i`-th on.
abbrev pub IsRun : ℕ → ℕ → List ℕ → (ℕ → ℕ) → ℕ → List Cell → Type 0
IsRun seq id rest wants i [] = rest ≡ []
IsRun seq id rest wants i (c ∷ cs) =
    (1 ≤ length rest)
    × IsCut seq id rest (wants i) c
    × IsRun (u32 (seq + 1)) id (drop (wants i) rest) wants (i + 1) cs

-- What the cells hold, one after the other.
unfoldable pub payloads : List Cell → List ℕ
payloads [] = []
payloads (c ∷ cs) = c.payload ++ payloads cs

pub payloads-IsRun :
    (seq id : ℕ) (rest : List ℕ) (wants : ℕ → ℕ) (i : ℕ) (cells : List Cell)
    → IsRun seq id rest wants i cells
    → payloads cells ≡ rest
unfolding payloads
payloads-IsRun seq id rest wants i [] run = sym run
payloads-IsRun seq id rest wants i (c ∷ cs) (some_left, cut, run) = rw (
  cut.front,
  payloads-IsRun (u32 (seq + 1)) id (drop (wants i) rest) wants (i + 1) cs run,
  take-append-drop (wants i) rest,
)

generate_cell_id-lt : (id : Option (ℕ × ℕ)) → generate_cell_id id < 65536
unfolding generate_cell_id
generate_cell_id-lt none = omega arith
generate_cell_id-lt (some (a, b)) = omega arith

drop-length-take : {A : Type 0} (n : ℕ) (xs : List A) → drop (length (take n xs)) xs ≡ drop n xs
drop-length-take zero xs = refl
drop-length-take (suc n) [] = refl
drop-length-take (suc n) (x ∷ xs) = drop-length-take n xs

module _ ⦃F : Floats⦄ where
  -- The lengths that a profile wants, draw by draw.
  abbrev pub wants_of : Profile → (ℕ → CellDraws) → ℕ → ℕ
  wants_of p draws i = wanted p (draws i).length

  -- The framer after `n` cells: the profile is still usable and wants the same, and `n` sequence
  -- numbers are used up.
  pub record IsAfter (f : Framer) (n : ℕ) (f' : Framer) : Type 0 where
    pub usable : IsUsable f'.profile
    pub same : (d : LengthDraws) → wanted f'.profile d ≡ wanted f.profile d
    pub counted : f'.seq ≡ u32 (f.seq + n)

  IsAfter-step :
      (f : Framer) (d : CellDraws) (n : ℕ) (f' : Framer)
      → IsAfter (advanced f d) n f'
      → IsAfter f (suc n) f'
  unfolding advanced
  IsAfter-step f d n f' a = record {
    usable = a.usable;
    same = λ e. a.same e ∙ wanted-update_load f.profile _ e;
    counted = a.counted ∙ omega arith;
  }

  fragment_loop_lem :
      (fuel : ℕ) (f : Framer) (id : ℕ) (rest : List ℕ) (draws : ℕ → CellDraws) (i : ℕ) (p : Profile)
      → IsUsable f.profile
      → ((d : LengthDraws) → wanted f.profile d ≡ wanted p d)
      → f.seq < 4294967296
      → length rest ≤ fuel
      → (cells : List Cell) × (f' : Framer) × (fragment_loop fuel f id rest draws i
          ≡ ok (cells, f'))
        × IsRun f.seq id rest (wants_of p draws) i cells
        × IsAfter f (length cells) f'
        × (((j : ℕ) → (draws j).now < 256 ^ 8) → id < 65536 → All IsCell cells)
  unfolding fragment_loop advanced
  fragment_loop_lem fuel f id [] draws i p u same small enough = (
    [],
    f,
    refl,
    refl,
    record { usable = u; same = λ d. refl; counted = omega arith },
    λ stamped named. tt,
  )
  fragment_loop_lem zero f id (b ∷ rest) draws i p u same small enough = absurd (omega arith)
  fragment_loop_lem (suc fuel) f id (b ∷ rest) draws i p u same small enough =
      let d = draws i in
      let (c, made, cut, fits) = next_cell_lem f id (b ∷ rest) d u in
      let left : drop (length c.payload) (b ∷ rest) ≡ drop (wants_of p draws i) (b ∷ rest) =
        rw (cut.front, drop-length-take, same d.length) in
      let cut' : IsCut f.seq id (b ∷ rest) (wants_of p draws i) c = rw (same d.length) at cut in
      let (cells, f', ended, run, after, all_fit) =
        fragment_loop_lem fuel (advanced f d) id (drop (wants_of p draws i) (b ∷ rest)) draws
          (i + 1) p (IsUsable-update_load f.profile (wanted f.profile d.length) u)
          (λ e. wanted-update_load f.profile (wanted f.profile d.length) e ∙ same e) (omega arith)
          (omega (arith, length-drop (wants_of p draws i) (b ∷ rest), cut'.positive)) in
      (
        c ∷ cells,
        f',
        rw (made, left, ended),
        (omega arith, cut', run),
        IsAfter-step f d (length cells) f' after,
        λ stamped named. (fits (stamped i) named small, all_fit stamped named),
      )

  -- On a usable profile `Fragment` returns: the fuel of its loop is enough. The cells are a run that
  -- cuts the data up, numbered from the framer's sequence number on, and the framer ends ready for
  -- the next run. With clock readings of 64 bits all fields of the cells are in range.
  pub fragment_lem :
      (f : Framer) (bytes : List ℕ) (id : Option (ℕ × ℕ)) (draws : ℕ → CellDraws)
      → IsUsable f.profile
      → f.seq < 4294967296
      → (cells : List Cell) × (f' : Framer) × (fragment f bytes id draws ≡ ok (cells, f'))
        × IsRun f.seq (generate_cell_id id) bytes (wants_of f.profile draws) 0 cells
        × IsAfter f (length cells) f'
        × (((j : ℕ) → (draws j).now < 256 ^ 8) → generate_cell_id id < 65536 → All IsCell cells)
  unfolding fragment
  fragment_lem f bytes id draws u small =
      fragment_loop_lem (length bytes) f (generate_cell_id id) bytes draws 0 f.profile u (λ d. refl)
        small (omega arith)

  -- On a usable profile, with a 32-bit sequence number and clock readings of 64 bits, `Fragment`
  -- returns: the fuel of its loop is enough. The payloads of the cells, one after the other, are
  -- the data. The cells are a run that cuts the data up at the wanted lengths, numbered from the
  -- framer's sequence number on modulo 2 ^ 32, and their fields are in range. The framer's profile
  -- stays usable and wants the same lengths, and its number is that many further on.
  pub payloads-fragment :
      (f : Framer) (bytes : List ℕ) (id : Option (ℕ × ℕ)) (draws : ℕ → CellDraws)
      → IsUsable f.profile
      → f.seq < 4294967296
      → ((j : ℕ) → (draws j).now < 256 ^ 8)
      → (cells : List Cell) × (f' : Framer) × (fragment f bytes id draws ≡ ok (cells, f'))
        × (payloads cells ≡ bytes)
        × IsRun f.seq (generate_cell_id id) bytes (wants_of f.profile draws) 0 cells
        × All IsCell cells
        × IsAfter f (length cells) f'
  payloads-fragment f bytes id draws u small clock =
      let (cells, f', made, run, after, fits) = fragment_lem f bytes id draws u small in
      (
        cells,
        f',
        made,
        payloads-IsRun f.seq (generate_cell_id id) bytes (wants_of f.profile draws) 0 cells run,
        run,
        fits clock (generate_cell_id-lt id),
        after,
      )

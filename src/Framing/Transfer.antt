-- ===== src/Framing/Transfer.antt =====
-- `Fragment` at one end and `ProcessCell` at the other: which data arrive.
use disguise.Common.{
  ℕ, zero, suc, ◌+◌, ◌%◌, ◌<◌, ◌≡◌, ◌≢◌, refl, sym, ap, List, [], ◌∷◌, ltb, if◌then◌else◌, length,
  drop, arith,
}
use disguise.Common.{ok, Bool, true, false, ◌==◌, Option, none, Bool-cases, inl, inr, length-drop}
use disguise.Common.Bytes.{u32}
use disguise.Common.Floats.{Floats}
use disguise.Common.Maps.{lookup}
use disguise.Profile.Draws.{IsUsable}
use disguise.Framing.{Cell, Framer}
use disguise.Framing.Padding.{generate_cell_id}
use disguise.Framing.Reassembly.{Reassembler, receive}
use disguise.Framing.Reassembly.Receive.{Leaves, Untouched, ends, receive-IsRun}
use disguise.Framing.Fragment.{CellDraws, fragment}
use disguise.Framing.Fragment.Cells.Run.{IsRun, wants_of, fragment_lem}

-- The sum of the first `k` wanted lengths from the `i`-th on.
unfoldable pub sum_of : (ℕ → ℕ) → ℕ → ℕ → ℕ
sum_of wants i zero = 0
sum_of wants i (suc k) = wants i + sum_of wants (i + 1) k

-- A run carries no end-of-stream flag exactly where the wanted lengths reach the end of the data.
abbrev pub EndsWith : ℕ → (ℕ → ℕ) → ℕ → Bool → Type 0
EndsWith n wants i true = (k : ℕ) → sum_of wants i k ≢ n
EndsWith n wants i false = (k : ℕ) × (sum_of wants i k ≡ n)

ends-IsRun :
    (seq id : ℕ) (rest : List ℕ) (wants : ℕ → ℕ) (i : ℕ) (cells : List Cell)
    → IsRun seq id rest wants i cells
    → EndsWith (length rest) wants i (ends cells)
unfolding ends sum_of
ends-IsRun seq id rest wants i [] run = (0, ap length (sym run))
ends-IsRun seq id rest wants i (c ∷ cs) (some_left, cut, run) =
    elim (Bool-cases (ltb (length rest) (wants i))) [
      | inl past ↦
          let closed : (c.flags % 2 == 1) ≡ true = ground (arith, cut.ended) in
          rw closed (too_long past)
      | inr within ↦
          let open_end : (c.flags % 2 == 1) ≡ false = ground (arith, cut.ended) in
          rw open_end (
            step within (ends cs)
              (ends-IsRun (u32 (seq + 1)) id (drop (wants i) rest) wants (i + 1) cs run))
    ]
  where
    too_long : ltb (length rest) (wants i) ≡ true → (k : ℕ) → sum_of wants i k ≢ length rest
    too_long past zero = λ h. absurd (omega (arith, h))
    too_long past (suc k) = λ h. absurd (ground (arith, h))

    never_reached :
        ltb (length rest) (wants i) ≡ false
        → EndsWith (length (drop (wants i) rest)) wants (i + 1) true
        → EndsWith (length rest) wants i true
    never_reached within never zero = λ h. absurd (omega (arith, h))
    never_reached within never (suc k) =
        λ h. never k (ground (arith, h, length-drop (wants i) rest))

    step :
        ltb (length rest) (wants i) ≡ false
        → (b : Bool) → EndsWith (length (drop (wants i) rest)) wants (i + 1) b
        → EndsWith (length rest) wants i b
    step within true never = never_reached within never
    step within false reached =
        (suc (reached.0), ground (arith, reached.1, length-drop (wants i) rest))

module _ ⦃F : Floats⦄ where
  -- For a usable profile, a 32-bit sequence number and a receiver with no stream of the drawn id,
  -- `Fragment` returns cells and `ProcessCell` refuses none of them. If no first few of the wanted
  -- lengths add up to the length of the data, exactly the data come out, once, and the stream is
  -- deleted. If some do, nothing comes out, and the stream waits for the framer's next number with
  -- the data in it. Other streams do not change.
  pub receive-fragment :
      (f : Framer) (bytes : List ℕ) (id : Option (ℕ × ℕ)) (draws : ℕ → CellDraws) (r : Reassembler)
      → IsUsable f.profile
      → f.seq < 4294967296
      → lookup (generate_cell_id id) r.streams ≡ none
      → (cells : List Cell) × (f' : Framer) × (r' : Reassembler) × (flagged : Bool) × (fragment f
            bytes id draws
          ≡ ok (cells, f'))
        × (receive r cells ≡ ok ((if flagged then bytes ∷ [] else []), r'))
        × Leaves r' (generate_cell_id id) f'.seq bytes flagged
        × EndsWith (length bytes) (wants_of f.profile draws) 0 flagged
        × Untouched (generate_cell_id id) r r'
  receive-fragment f bytes id draws r u small fresh =
      let (cells, f', made, run, after, fits) = fragment_lem f bytes id draws u small in
      let (r', got, leaves, others) =
        receive-IsRun f.seq (generate_cell_id id) bytes (wants_of f.profile draws) 0 cells r []
          small run (inl (fresh, refl)) in
      (
        cells,
        f',
        r',
        ends cells,
        made,
        got,
        rw after.counted leaves,
        ends-IsRun f.seq (generate_cell_id id) bytes (wants_of f.profile draws) 0 cells run,
        others,
      )

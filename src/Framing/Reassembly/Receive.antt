-- ===== src/Framing/Reassembly/Receive.antt =====
-- Cells cut by `Fragment`, put together by `ProcessCell`.
use disguise.Common.{
  ℕ, suc, ◌+◌, ◌%◌, ◌<◌, ◌≡◌, ◌≢◌, refl, sym, ◌∙◌, ap, List, [], ◌∷◌, ◌++◌, ltb, if◌then◌else◌,
  length, drop, arith,
}
use disguise.Common.{
  ok, Bool, true, false, ◌||◌, ◌==◌, Option, none, some, Bool-cases, ==_refl, not-==, inl, inr, ◌⊎◌,
}
use disguise.Common.{take-append-drop, drop_all, take_all}
use disguise.Common.Bytes.{u32}
use disguise.Common.Maps.{lookup, insert, delete, lookup-insert, lookup-delete}
use disguise.Framing.{Cell}
use disguise.Framing.Reassembly.{Stream, Reassembler, open_stream, process_cell, messages, receive}
use disguise.Framing.Fragment.Cells.Run.{IsRun}
use mathlib.Core.Path.{subst}
use mathlib.Core.List.{append_assoc, append-nil}

-- The stream `id` waits for the number `seq` and holds `acc`; a stream that is not there waits for any.
abbrev pub Expects : Reassembler → ℕ → ℕ → List ℕ → Type 0
Expects r id seq acc =
    ((lookup id r.streams ≡ none) × (acc ≡ []))
    ⊎ ((s : Stream) × (lookup id r.streams ≡ some s)
        × (s.buffer ≡ acc)
        × (u32 (s.last_seq + 1) ≡ seq))

-- The other streams are as they were.
abbrev pub Untouched : ℕ → Reassembler → Reassembler → Type 0
Untouched id r r' = (j : ℕ) → id ≢ j → lookup j r'.streams ≡ lookup j r.streams

-- Opening the stream of a cell that it waits for.
open_stream_lem :
    (c : Cell) (m : List (ℕ × Stream)) (found : Option Stream) (acc : List ℕ)
    → c.seq < 4294967296
    → ((found ≡ none) × (acc ≡ []))
      ⊎ ((s : Stream) × (found ≡ some s) × (s.buffer ≡ acc) × (u32 (s.last_seq + 1) ≡ c.seq))
    → ((open_stream c m found).0.buffer ≡ acc)
      × ((c.seq == u32 ((open_stream c m found).0.last_seq + 1)) ≡ true)
      × ((j : ℕ) → c.cell_id ≢ j → lookup j (open_stream c m found).1 ≡ lookup j m)
unfolding open_stream
open_stream_lem c m found acc small (inl (absent, empty)) =
    let fresh : Stream = record { buffer = []; last_seq = u32 (c.seq + 4294967295) } in
    rw absent (sym empty, ground arith, λ j ne. lookup-insert j c.cell_id fresh m ∙ rw (not-== ne))
open_stream_lem c m found acc small (inr (s, there, holds, next)) =
    rw there (holds, ground arith, λ j ne. refl)

module _ (r : Reassembler) (c : Cell) where
  abbrev stream : Stream
  stream = (open_stream c r.streams (lookup c.cell_id r.streams)).0

  abbrev opened : List (ℕ × Stream)
  opened = (open_stream c r.streams (lookup c.cell_id r.streams)).1

  -- The streams with the cell appended to its own.
  abbrev appended : List (ℕ × Stream)
  appended =
      insert c.cell_id (record stream { buffer = stream.buffer ++ c.payload; last_seq = c.seq })
        opened

  module _ (acc : List ℕ) (small : c.seq < 4294967296) (e : Expects r c.cell_id c.seq acc) where
    -- A cell that its stream waits for, and that does not end it, is appended.
    process_cell-append :
        c.flags ≡ 0
        → (process_cell r c ≡ (ok none, record r { streams = appended }))
          × Expects (record r { streams = appended }) c.cell_id (u32 (c.seq + 1)) (acc ++ c.payload)
          × Untouched c.cell_id r (record r { streams = appended })
    unfolding process_cell
    process_cell-append plain =
        let (holds, next, others) =
          open_stream_lem c r.streams (lookup c.cell_id r.streams) acc small e in
        let open_end : (c.flags % 2 == 1) ≡ false = ground arith in
        (
          rw (next, open_end),
          inr (
            record stream { buffer = stream.buffer ++ c.payload; last_seq = c.seq },
            lookup-insert c.cell_id c.cell_id _ opened ∙ rw (==_refl c.cell_id),
            ap (λ b. b ++ c.payload) holds,
            refl,
          ),
          λ j ne. lookup-insert j c.cell_id _ opened ∙ rw (not-== ne) (others j ne),
        )

    -- A cell that its stream waits for, and that ends it, delivers what the stream holds and deletes it.
    process_cell-deliver :
        c.flags ≡ 1
        → (process_cell r c
            ≡ (ok (some (acc ++ c.payload)), record r { streams = delete c.cell_id appended }))
          × (lookup c.cell_id (delete c.cell_id appended) ≡ none)
          × Untouched c.cell_id r (record r { streams = delete c.cell_id appended })
    unfolding process_cell
    process_cell-deliver last =
        let (holds, next, others) =
          open_stream_lem c r.streams (lookup c.cell_id r.streams) acc small e in
        let closed : (c.flags % 2 == 1) ≡ true = ground arith in
        (
          rw (next, closed, holds),
          lookup-delete c.cell_id c.cell_id appended ∙ rw (==_refl c.cell_id),
          λ j ne.
              lookup-delete j c.cell_id appended
              ∙ rw (not-== ne) (lookup-insert j c.cell_id _ opened ∙ rw (not-== ne) (others j ne)),
        )

-- Some cell carries the end-of-stream flag.
unfoldable pub ends : List Cell → Bool
ends [] = false
ends (c ∷ cs) = c.flags % 2 == 1 || ends cs

-- What becomes of the stream of a run: a flagged run leaves none, any other leaves its bytes.
abbrev pub Leaves : Reassembler → ℕ → ℕ → List ℕ → Bool → Type 0
Leaves r id seq acc true = lookup id r.streams ≡ none
Leaves r id seq acc false = Expects r id seq acc

run_of_nothing :
    (seq id : ℕ) (rest : List ℕ) (wants : ℕ → ℕ) (i : ℕ) (cells : List Cell)
    → IsRun seq id rest wants i cells
    → length rest ≡ 0
    → cells ≡ []
run_of_nothing seq id rest wants i [] run h = refl
run_of_nothing seq id rest wants i (c ∷ cs) run h = absurd (omega (arith, run.0))

-- What receiving a run does.
abbrev Received : ℕ → ℕ → List ℕ → List Cell → Reassembler → List ℕ → Type 0
Received seq id rest cells r acc =
    (r' : Reassembler) × (receive r cells
      ≡ ok ((if ends cells then (acc ++ rest) ∷ [] else []), r'))
    × Leaves r' id (u32 (seq + length cells)) (acc ++ rest) (ends cells)
    × Untouched id r r'

module _ (c : Cell) (cs : List Cell) (r : Reassembler) (acc rest : List ℕ)
    (small : c.seq < 4294967296) (e : Expects r c.cell_id c.seq acc) where
  Received-last :
      c.flags ≡ 1 → cs ≡ [] → c.payload ≡ rest → Received c.seq c.cell_id rest (c ∷ cs) r acc
  unfolding receive ends messages
  Received-last last alone all =
      let (answer, gone, others) = process_cell-deliver r c acc small e last in
      let closed : (c.flags % 2 == 1) ≡ true = ground arith in
      (
        record r { streams = delete c.cell_id (appended r c) },
        rw (closed, alone, answer, all),
        rw closed gone,
        others,
      )

  Received-more :
      (left : List ℕ)
      → c.flags ≡ 0
      → c.payload ++ left ≡ rest
      → ((r' : Reassembler)
          → Expects r' c.cell_id (u32 (c.seq + 1)) (acc ++ c.payload)
          → Received (u32 (c.seq + 1)) c.cell_id left cs r' (acc ++ c.payload))
      → Received c.seq c.cell_id rest (c ∷ cs) r acc
  unfolding receive ends messages
  Received-more left plain joined later =
      let (answer, waits, others) = process_cell-append r c acc small e plain in
      let open_end : (c.flags % 2 == 1) ≡ false = ground arith in
      let whole : (acc ++ c.payload) ++ left ≡ acc ++ rest =
        append_assoc acc c.payload left ∙ ap (λ b. acc ++ b) joined in
      let (r'', got, leaves, untouched) = later (record r { streams = appended r c }) waits in
      let number : u32 (u32 (c.seq + 1) + length cs) ≡ u32 (c.seq + suc (length cs)) =
        omega arith in
      (
        r'',
        rw (open_end, answer, got, whole),
        rw (open_end, ← number, ← whole) leaves,
        λ j ne. untouched j ne ∙ others j ne,
      )

-- A run of cells whose first number is a uint32, received on a stream that waits for that number:
-- no cell is refused. If a cell is flagged, one payload comes out, what the stream held and then
-- the data of the run, and the stream is deleted. If none is, nothing comes out and the bytes stay
-- in the stream. Other streams do not change.
pub receive-IsRun :
    (seq id : ℕ) (rest : List ℕ) (wants : ℕ → ℕ) (i : ℕ) (cells : List Cell) (r : Reassembler)
    (acc : List ℕ)
    → seq < 4294967296
    → IsRun seq id rest wants i cells
    → Expects r id seq acc
    → (r' : Reassembler) × (receive r cells
        ≡ ok ((if ends cells then (acc ++ rest) ∷ [] else []), r'))
      × Leaves r' id (u32 (seq + length cells)) (acc ++ rest) (ends cells)
      × Untouched id r r'
receive-IsRun seq id rest wants i [] r acc small run e =
    unfold receive ends in
    (r, refl, rw (run, append-nil) (subst (λ s. Expects r id s acc) (omega arith) e), λ j ne. refl)
receive-IsRun seq id rest wants i (c ∷ cs) r acc small (some_left, cut, run) e =
    elim (Bool-cases (ltb (length rest) (wants i))) [
      | inl past ↦
          rw (← cut.in_order, ← cut.of_stream)
            (Received-last c cs r acc rest small' waits (cut.ended ∙ rw past)
              (run_of_nothing _ _ _ wants (i + 1) cs run
                (ap length (drop_all (wants i) rest (ground arith))))
              (cut.front ∙ take_all (wants i) rest (ground arith)))
      | inr within ↦
          rw (← cut.in_order, ← cut.of_stream)
            (Received-more c cs r acc rest small' waits (drop (wants i) rest)
              (cut.ended ∙ rw within) (rw cut.front (take-append-drop (wants i) rest))
              (λ r' w.
                receive-IsRun (u32 (c.seq + 1)) c.cell_id (drop (wants i) rest) wants (i + 1) cs r'
                  (acc ++ c.payload) (omega arith) (rw (cut.in_order, cut.of_stream) run) w))
    ]
  where
    small' : c.seq < 4294967296
    small' = rw cut.in_order small

    waits : Expects r c.cell_id c.seq acc
    waits = rw (cut.in_order, cut.of_stream) e

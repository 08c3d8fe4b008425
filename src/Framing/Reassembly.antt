-- ===== src/Framing/Reassembly.antt =====
-- disguise/framing/reassembler.go: the streams that are being put together, by cell id.
pub mod Receive
use disguise.Common.{ℕ, ◌+◌, ◌%◌, ◌≡◌, List, [], ◌∷◌, ◌++◌, ◌==◌, if◌then◌else◌, Option, none, some}
use disguise.Common.{Outcome, ok, err, out_of_order, ◌>>=◌}
use disguise.Common.Bytes.{u32}
use disguise.Common.Maps.{lookup, insert, delete}
use disguise.Framing.{Cell}

pub record Stream : Type 0 where
  pub buffer : List ℕ
  pub last_seq : ℕ

pub record Reassembler : Type 0 where
  pub streams : List (ℕ × Stream)

unfoldable pub new_reassembler : Reassembler
new_reassembler = record { streams = [] }

-- The stream of a cell, made where there is none, and the map that holds it.
unfoldable pub open_stream : Cell → List (ℕ × Stream) → Option Stream → Stream × List (ℕ × Stream)
open_stream c m (some s) = (s, m)
open_stream c m none =
    let s : Stream = record { buffer = []; last_seq = u32 (c.seq + 4294967295) } in
    (s, insert c.cell_id s m)

-- The payload of a stream that has ended, or an error, and the reassembler after the cell.
unfoldable pub process_cell : Reassembler → Cell → Outcome (Option (List ℕ)) × Reassembler
unfolding open_stream
process_cell r c =
    let (stream, m) = open_stream c r.streams (lookup c.cell_id r.streams) in
    let stream' = record stream { buffer = stream.buffer ++ c.payload; last_seq = c.seq } in
    let m' = insert c.cell_id stream' m in
    if c.seq == u32 (stream.last_seq + 1)
    then if c.flags % 2 == 1
      then (ok (some stream'.buffer), record r { streams = delete c.cell_id m' })
      else (ok none, record r { streams = m' })
    else (err out_of_order, record r { streams = m })

unfoldable pub messages : Option (List ℕ) → List (List ℕ) → List (List ℕ)
messages none ms = ms
messages (some m) ms = m ∷ ms

-- One cell after the other, up to the first error, with the payloads returned.
unfoldable pub receive : Reassembler → List Cell → Outcome (List (List ℕ) × Reassembler)
receive r [] = ok ([], r)
receive r (c ∷ cs) =
    let (answer, r') = process_cell r c in
    do m ← answer; (ms, r'') ← receive r' cs; ok (messages m ms, r'')

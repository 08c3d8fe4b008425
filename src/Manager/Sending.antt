-- ===== src/Manager/Sending.antt =====
-- From the queue to the network: `GetOutboundTraffic`.
use disguise.Common.{ℕ, ◌≡◌, refl, List, ◌∷◌, false, arith}
use disguise.Common.{
  Option, none, some, Error, inl, inr, ◌⊎◌, Outcome, ok, err, panic, blocked, out_of_fuel,
  ok-injective, no_outbound_traffic,
}
use disguise.Common.Floats.{Floats}
use disguise.Framing.{Cell, IsCell}
use disguise.Framing.Codec.{encode_cell}
use disguise.Framing.Codec.Ends.{encode_cell-Settles}
use disguise.Scheduler.{Scheduler}
use disguise.Scheduler.View.{entries}
use disguise.Scheduler.Send.{Sent, idle, taken, get_next_cell_lem}
use disguise.Manager.{
  Manager, lock, Reply, value, failure, encoded, encode_next, get_outbound_traffic,
}
use disguise.Manager.Invariant.{IsManager, AreCells}
use mathlib.Core.List.{Perm, mem-cons_self, mem-cons_of_mem}
use mathlib.Core.List.Perm

module _ ⦃F : Floats⦄ where
  AreCells-sent :
      (s s' : Scheduler) (c : Cell) (due : ℕ)
      → Perm ((c, due) ∷ entries s'.queue) (entries s.queue)
      → AreCells s.queue
      → IsCell c × AreCells s'.queue
  AreCells-sent s s' c due same all = (
    all (c, due) ((Perm.mem_iff same).0 mem-cons_self),
    λ x m. all x ((Perm.mem_iff same).0 (mem-cons_of_mem (c, due) m)),
  )

  Sent-IsManager :
      (m : Manager) (now : ℕ) (c : Option Cell) (s' : Scheduler)
      → IsManager m
      → Sent m.scheduler now c s'
      → IsManager (record m { scheduler = s'; locked = false })
  Sent-IsManager m now c s' h (idle early) = record {
    open_lock = refl;
    usable = h.usable;
    numbered = h.numbered;
    queue = h.queue;
    cells = h.cells;
    model = h.model;
    buckets = h.buckets;
  }
  Sent-IsManager m now c s' h (taken {c = x} due _ _ q same _) = record {
    open_lock = refl;
    usable = h.usable;
    numbered = h.numbered;
    queue = q;
    cells = (AreCells-sent m.scheduler s' x due same h.cells).1;
    model = h.model;
    buckets = h.buckets;
  }

  encoded_state :
      (m : Manager) (o : Outcome (List ℕ)) (r : Reply (List ℕ)) (m' : Manager)
      → encoded m o ≡ ok (r, m')
      → m' ≡ m
  unfolding encoded
  encoded_state m (ok bytes) r m' e = ground (arith, ok-injective e)
  encoded_state m (err x) r m' e = ground (arith, ok-injective e)
  encoded_state m panic r m' e = cc
  encoded_state m blocked r m' e = cc
  encoded_state m out_of_fuel r m' e = cc

  encode_next_state :
      (m : Manager) (c : Option Cell) (r : Reply (List ℕ)) (m' : Manager)
      → encode_next m c ≡ ok (r, m')
      → m' ≡ m
  unfolding encode_next
  encode_next_state m none r m' e = ground (arith, ok-injective e)
  encode_next_state m (some c) r m' e = encoded_state m (encode_cell c) r m' e

  encoded_value :
      (m : Manager) (o : Outcome (List ℕ)) (bytes : List ℕ) (m' : Manager)
      → encoded m o ≡ ok (value bytes, m')
      → o ≡ ok bytes
  unfolding encoded
  encoded_value m (ok b) bytes m' e = ground (arith, ok-injective e)
  encoded_value m (err x) bytes m' e = ground (arith, ok-injective e)
  encoded_value m panic bytes m' e = cc
  encoded_value m blocked bytes m' e = cc
  encoded_value m out_of_fuel bytes m' e = cc

  encode_next_value :
      (m : Manager) (s s' : Scheduler) (now : ℕ) (next : Option Cell) (bytes : List ℕ)
      (m' : Manager)
      → AreCells s.queue
      → Sent s now next s'
      → encode_next m next ≡ ok (value bytes, m')
      → (c : Cell) × IsCell c × (encode_cell c ≡ ok bytes)
  unfolding encode_next
  encode_next_value m s s' now next bytes m' all (idle early) e =
      absurd (not_value (ok-injective e))
    where
      not_value :
          ◌≡◌ {A = Reply (List ℕ) × Manager} (failure no_outbound_traffic, m) (value bytes, m') → ⊥
      not_value q = cc
  encode_next_value m s s' now next bytes m' all (taken {c = x} due _ _ q same _) e =
      (x, (AreCells-sent s s' x due same all).0, encoded_value m (encode_cell x) bytes m' e)

  -- `GetOutboundTraffic` on a well-formed manager, where it returns, leaves it well formed. It
  -- returns an error, or the encoding of a cell whose fields are in range.
  pub get_outbound_traffic-IsManager :
      (m : Manager) (now : ℕ) (r : Reply (List ℕ)) (m' : Manager)
      → IsManager m
      → get_outbound_traffic m now ≡ ok (r, m')
      → IsManager m'
        × (((e : Error) × (r ≡ failure e))
            ⊎ ((bytes : List ℕ) × (c : Cell) × (r ≡ value bytes)
                × IsCell c
                × (encode_cell c ≡ ok bytes)))
  unfolding get_outbound_traffic lock
  get_outbound_traffic-IsManager m now r m' h e =
      let (next, s', got, sent) = get_next_cell_lem m.scheduler now h.queue in
      let m1 = record m { scheduler = s'; locked = false } in
      let reply : encode_next m1 next ≡ ok (r, m') = rw (h.open_lock, got) at e in
      (
        rw (encode_next_state m1 next r m' reply) (Sent-IsManager m now next s' h sent),
        answered r (λ bytes q.
            encode_next_value m1 m.scheduler s' now next bytes m' h.cells sent (rw q at reply)),
      )
    where
      answered :
          (a : Reply (List ℕ))
          → ((bytes : List ℕ)
              → a ≡ value bytes
              → (c : Cell) × IsCell c × (encode_cell c ≡ ok bytes))
          → ((x : Error) × (a ≡ failure x))
            ⊎ ((bytes : List ℕ) × (c : Cell) × (a ≡ value bytes)
                × IsCell c
                × (encode_cell c ≡ ok bytes))
      answered (failure x) encoding = inl (x, refl)
      answered (value bytes) encoding =
          let (c, fits, made) = encoding bytes refl in inr (bytes, c, refl, fits, made)

  -- What the end of `GetOutboundTraffic` makes of what the scheduler gave.
  abbrev Answered : Manager → Option Cell → Outcome (Reply (List ℕ) × Manager) → Type 0
  Answered m next o =
      ((next ≡ none) × (o ≡ ok (failure no_outbound_traffic, m)))
      ⊎ ((c : Cell) × (next ≡ some c)
          × IsCell c
          × (((encode_cell c ≡ panic) × (o ≡ panic))
              ⊎ ((bytes : List ℕ) × (encode_cell c ≡ ok bytes) × (o ≡ ok (value bytes, m)))))

  encode_next-Answered :
      (m : Manager) (s s' : Scheduler) (now : ℕ) (next : Option Cell)
      → AreCells s.queue
      → Sent s now next s'
      → Answered m next (encode_next m next)
  unfolding encode_next encoded
  encode_next-Answered m s s' now none all (idle early) = inl (refl, refl)
  encode_next-Answered m s s' now (some c) all (taken due _ _ q same _) =
      let fits = (AreCells-sent s s' c due same all).0 in
      elim (encode_cell-Settles c) [
        | inl e ↦ inr (c, refl, fits, inl (e, rw e refl))
        | inr (bytes, e) ↦ inr (c, refl, fits, inr (bytes, e, rw e refl))
      ]

  -- On a well-formed manager `GetOutboundTraffic` takes from its queue what `Sent` allows: the
  -- cell of the least due time, if that time has come, and nothing if the queue is empty or no
  -- cell is due. With nothing taken it returns the error for no traffic. With a cell, whose fields
  -- are in range, it returns the encoding of that cell, or panics where that encoding panics.
  -- Where it returns, the manager differs from the one before in its scheduler alone, and is well
  -- formed.
  pub get_outbound_traffic_lem :
      (m : Manager) (now : ℕ)
      → IsManager m
      → (next : Option Cell) × (s' : Scheduler) × Sent m.scheduler now next s'
        × IsManager (record m { scheduler = s' })
        × (((next ≡ none)
              × (get_outbound_traffic m now
                  ≡ ok (failure no_outbound_traffic, record m { scheduler = s' })))
            ⊎ ((c : Cell) × (next ≡ some c)
                × IsCell c
                × (((encode_cell c ≡ panic) × (get_outbound_traffic m now ≡ panic))
                    ⊎ ((bytes : List ℕ) × (encode_cell c ≡ ok bytes)
                        × (get_outbound_traffic m now
                            ≡ ok (value bytes, record m { scheduler = s' }))))))
  unfolding get_outbound_traffic lock
  get_outbound_traffic_lem m now h =
      let (next, s', got, sent) = get_next_cell_lem m.scheduler now h.queue in
      let m1 = record m { scheduler = s'; locked = false } in
      let same : record m { scheduler = s' } ≡ m1 = rw h.open_lock refl in
      (
        next,
        s',
        sent,
        rw same (Sent-IsManager m now next s' h sent),
        rw (same, h.open_lock, got) (encode_next-Answered m1 m.scheduler s' now next h.cells sent),
      )

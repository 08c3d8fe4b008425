-- ===== src/Manager/Inbound.antt =====
-- From the network to the application: `ProcessInboundTraffic` and `ReadApplicationData`.
use disguise.Common.{
  ℕ, ◌<◌, ◌≡◌, refl, ap, List, [], ◌∷◌, ◌++◌, ◌==◌, if◌then◌else◌, true, false, arith, inl, inr,
  Bool-cases,
}
use disguise.Common.{
  Error, Option, none, some, Outcome, ok, err, panic, blocked, out_of_fuel, ok-injective, length,
  failed_decode, length_mismatch,
}
use disguise.Common.Everywhere.{All-append}
use disguise.Common.Floats.{Floats}
use disguise.Framing.{Cell, type_data}
use disguise.Framing.Codec.{encode_cell, decode_cell}
use disguise.Framing.Codec.Mismatch.{decode_cell-encode_cell}
use disguise.Framing.Reassembly.{Reassembler, process_cell}
use disguise.Classifier.{discretize_payload_size}
use disguise.Classifier.Predict.{discretize_payload_size-lt}
use disguise.Manager.{
  Manager, Reply, value, failure, lock, unlock, accept, process_decoded, after_decoding,
  get_outbound_traffic, process_inbound_traffic, read_application_data,
}
use disguise.Manager.Invariant.{IsManager}
use disguise.Manager.Sending.{get_outbound_traffic-IsManager}

module _ ⦃F : Floats⦄ where
  -- If a well-formed manager's `GetOutboundTraffic` returns bytes, the `ProcessInboundTraffic` of
  -- any manager whose mutex is free answers them with a decoding error and leaves that manager as
  -- it was.
  pub process_inbound_traffic-get_outbound_traffic :
      (m : Manager) (now : ℕ) (bytes : List ℕ) (m' : Manager) (peer : Manager) (spare : List ℕ)
      → IsManager m
      → get_outbound_traffic m now ≡ ok (value bytes, m')
      → peer.locked ≡ false
      → process_inbound_traffic peer bytes spare
        ≡ ok (failure (failed_decode length_mismatch), unlock peer)
  unfolding process_inbound_traffic lock after_decoding
  process_inbound_traffic-get_outbound_traffic m now bytes m' peer spare h sent free =
      let delivered : (e : Error) × (◌≡◌ {A = Reply (List ℕ)} (value bytes) (failure e)) → ⊥ =
        λ (e, q). cc in
      elim ((get_outbound_traffic-IsManager m now (value bytes) m' h sent).1) [
        | inl failed ↦ absurd (delivered failed)
        | inr (bytes', c, same, fits, encoded) ↦
            let whole : encode_cell c ≡ ok bytes = rw (← reply_same same) at encoded in
            rw (free, decode_cell-encode_cell c bytes spare fits whole)
      ]
    where
      reply_same : {a b : List ℕ} → ◌≡◌ {A = Reply (List ℕ)} (value a) (value b) → a ≡ b
      reply_same q = cc

  noted :
      (m : Manager) (r : Reassembler) (queue : List ℕ) (payload : List ℕ)
      → IsManager m
      → IsManager (record m {
        observation_queue = m.observation_queue ++ (discretize_payload_size (length payload) ∷ []);
        reassembler = r;
        inbound_queue = queue;
      })
  noted m r queue payload h = record {
    open_lock = h.open_lock;
    usable = h.usable;
    numbered = h.numbered;
    queue = h.queue;
    cells = h.cells;
    model = h.model;
    buckets =
        All-append (λ o. o < 3) m.observation_queue (discretize_payload_size (length payload) ∷ [])
          h.buckets (discretize_payload_size-lt (length payload), tt);
  }

  accept_cases :
      (m : Manager) (answer : Outcome (Option (List ℕ))) (reply : Reply (Unit {0})) (m' : Manager)
      → accept m answer ≡ ok (reply, m')
      → (queue : List ℕ) × (record m { inbound_queue = queue } ≡ m')
  unfolding accept
  accept_cases m (ok none) reply m' e = (m.inbound_queue, ap (λ x. x.1) (ok-injective e))
  accept_cases m (ok (some payload)) reply m' e =
      (m.inbound_queue ++ payload, ap (λ x. x.1) (ok-injective e))
  accept_cases m (err x) reply m' e = (m.inbound_queue, ap (λ x. x.1) (ok-injective e))
  accept_cases m panic reply m' e = cc
  accept_cases m blocked reply m' e = cc
  accept_cases m out_of_fuel reply m' e = cc

  process_decoded-IsManager :
      (m : Manager) (c : Cell) (reply : Reply (Unit {0})) (m' : Manager)
      → IsManager m
      → process_decoded m c ≡ ok (reply, m')
      → IsManager m'
  unfolding process_decoded
  process_decoded-IsManager m c reply m' h e =
      let (answer, r) = process_cell m.reassembler c in
      let m1 = record m {
        observation_queue =
            m.observation_queue ++ (discretize_payload_size (length c.payload) ∷ []);
        reassembler = r;
      } in
      elim (Bool-cases (c.type == type_data)) [
        | inl of_data ↦
            let (queue, same) = accept_cases m1 answer reply m' (rw of_data at e) in
            rw (← same) (noted m r queue c.payload h)
        | inr other ↦ rw (← ap (λ x. x.1) (ok-injective (rw other at e))) h
      ]

  after_decoding-IsManager :
      (m : Manager) (decoded : Outcome Cell) (reply : Reply (Unit {0})) (m' : Manager)
      → IsManager m
      → after_decoding m decoded ≡ ok (reply, m')
      → IsManager m'
  unfolding after_decoding
  after_decoding-IsManager m (ok c) reply m' h e = process_decoded-IsManager m c reply m' h e
  after_decoding-IsManager m (err x) reply m' h e = rw (← ap (λ x. x.1) (ok-injective e)) h
  after_decoding-IsManager m panic reply m' h e = cc
  after_decoding-IsManager m blocked reply m' h e = cc
  after_decoding-IsManager m out_of_fuel reply m' h e = cc

  unlock-IsManager : (m : Manager) → IsManager m → IsManager (record m { locked = false })
  unlock-IsManager m h = record {
    open_lock = refl;
    usable = h.usable;
    numbered = h.numbered;
    queue = h.queue;
    cells = h.cells;
    model = h.model;
    buckets = h.buckets;
  }

  -- `ProcessInboundTraffic` keeps the invariant on all bytes on which it returns.
  pub process_inbound_traffic-IsManager :
      (m : Manager) (bytes spare : List ℕ) (reply : Reply (Unit {0})) (m' : Manager)
      → IsManager m
      → process_inbound_traffic m bytes spare ≡ ok (reply, m')
      → IsManager m'
  unfolding process_inbound_traffic lock
  process_inbound_traffic-IsManager m bytes spare reply m' h e =
      after_decoding-IsManager (record m { locked = false }) (decode_cell bytes spare) reply m'
        (unlock-IsManager m h) (rw h.open_lock at e)

  -- On a well-formed manager `ReadApplicationData` returns all that has arrived, or nil where
  -- nothing has; it leaves nothing to read and the manager well formed.
  pub read_application_data_lem :
      (m : Manager)
      → IsManager m
      → (m' : Manager) × (read_application_data m
          ≡ ok ((if length m.inbound_queue == 0 then none else some m.inbound_queue), m'))
        × (m'.inbound_queue ≡ [])
        × IsManager m'
  unfolding read_application_data lock
  read_application_data_lem m h = elim (Bool-cases (length m.inbound_queue == 0)) [
    | inl empty ↦ (
      record m { locked = false },
      rw (h.open_lock, empty),
      none_left m.inbound_queue empty,
      unlock-IsManager m h,
    )
    | inr full ↦ (
      record m { inbound_queue = []; locked = false },
      rw (h.open_lock, full),
      refl,
      record {
        open_lock = refl;
        usable = h.usable;
        numbered = h.numbered;
        queue = h.queue;
        cells = h.cells;
        model = h.model;
        buckets = h.buckets;
      },
    )
  ]
    where
      none_left : (queue : List ℕ) → (length queue == 0) ≡ true → queue ≡ []
      none_left [] e = refl
      none_left (x ∷ queue) e = absurd (ground arith)

-- ===== src/Manager.antt =====
-- disguise/manager.go: the manager of one connection, its operations, and the bodies of its two loops.
-- `m.profile` and the profile of the framer are one pointer, which `NewManager` and `SetProfile` set
-- together; here it is `framer.profile`. The mutex `m.mu` is `locked`, and an operation that finds it
-- held by its own goroutine is blocked. Calls of different goroutines come one after the other.
pub mod Invariant
pub mod Inbound
pub mod Outbound
pub mod Profiling
pub mod Reach
pub mod Sending
mod Tests
use disguise.Common.{
  ℕ, zero, suc, ◌+◌, ◌≡◌, List, [], ◌∷◌, ◌++◌, ltb, ◌==◌, if◌then◌else◌, Bool, true, false,
}
use disguise.Common.{
  Option, none, some, Error, Outcome, ok, err, panic, blocked, out_of_fuel, ◌>>=◌,
  no_outbound_traffic,
}
use disguise.Common.{failed_encode, failed_decode, failed_reassemble, length}
use disguise.Common.Floats.{Floats}
use disguise.Profile.{Profile, TrafficType, dynamic, same_type, get_profile, get_profile_type}
use disguise.Framing.{Cell, Framer, type_data}
use disguise.Framing as Framing
use disguise.Framing.Codec.{encode_cell, decode_cell}
use disguise.Framing.Fragment.{CellDraws, fragment, create_dummy_cell}
use disguise.Framing.Reassembly.{Reassembler, new_reassembler, process_cell}
use disguise.Scheduler.{Scheduler, new_scheduler, schedule_cell, get_next_cell}
use disguise.Scheduler as Scheduler
use disguise.Classifier.{Classifier, new_classifier, discretize_payload_size, train, predict}

-- What a Go function with an error result returns.
pub data Reply {ℓ} (A : Type ℓ) : Type ℓ where
  value : A → Reply A
  failure : Error → Reply A

module _ ⦃F : Floats⦄ where
  pub record Manager : Type 0 where
    pub framer : Framer
    pub reassembler : Reassembler
    pub scheduler : Scheduler
    pub inbound_queue : List ℕ
    pub classifier : Classifier
    pub observation_queue : List ℕ
    pub last_profile_switch : ℕ
    pub locked : Bool

  unfoldable pub new_manager : ℕ → Manager
  new_manager now = record {
    framer = Framing.new_framer (get_profile dynamic);
    reassembler = new_reassembler;
    scheduler = new_scheduler now;
    inbound_queue = [];
    classifier = new_classifier;
    observation_queue = [];
    last_profile_switch = now;
    locked = false;
  }

  unfoldable pub lock : Manager → Outcome Manager
  lock m = if m.locked then blocked else ok (record m { locked = true })

  abbrev pub unlock : Manager → Manager
  unlock m = record m { locked = false }

  -- What `SetProfile` does with the answer of `Train`, whose error it ignores.
  unfoldable pub after_training : Manager → Outcome Classifier → Outcome Manager
  after_training m (ok c) = ok (record m { classifier = c; observation_queue = [] })
  after_training m (err e) = ok (record m { observation_queue = [] })
  after_training m panic = panic
  after_training m blocked = blocked
  after_training m out_of_fuel = out_of_fuel

  -- The training at the head of `SetProfile`.
  unfoldable pub train_before_switch : Manager → Outcome Manager
  unfolding after_training
  train_before_switch m =
      if ltb 0 (length m.observation_queue)
      then after_training m
          (train m.classifier m.observation_queue (get_profile_type m.framer.profile))
      else ok m

  unfoldable pub set_profile : Manager → Profile → ℕ → Outcome Manager
  unfolding lock
  set_profile m p now = do
    m1 ← lock m
    m2 ← train_before_switch m1
    ok (
        unlock (record m2 {
          framer = Framing.set_profile m2.framer p;
          scheduler = Scheduler.set_profile m2.scheduler p;
          last_profile_switch = now;
        }))

  -- The loop of `QueueApplicationData`; `times` are the clock's answers to `ScheduleCell`.
  unfoldable pub queue_cells : Manager → List Cell → (ℕ → ℕ) → ℕ → Outcome Manager
  queue_cells m [] times i = ok m
  queue_cells m (c ∷ cells) times i = do
    s ← schedule_cell m.scheduler c (times i)
    let bucket = discretize_payload_size (length c.payload)
    let m' = record m { scheduler = s; observation_queue = m.observation_queue ++ (bucket ∷ []) }
    queue_cells m' cells times (i + 1)

  unfoldable pub queue_application_data :
      Manager → List ℕ → Option (ℕ × ℕ) → (ℕ → CellDraws) → (ℕ → ℕ) → Outcome Manager
  unfolding lock
  queue_application_data m bytes id draws times = do
    m1 ← lock m
    (cells, framer) ← fragment m1.framer bytes id draws
    m2 ← queue_cells (record m1 { framer = framer }) cells times 0
    ok (unlock m2)

  unfoldable pub encoded : Manager → Outcome (List ℕ) → Outcome (Reply (List ℕ) × Manager)
  encoded m (ok bytes) = ok (value bytes, m)
  encoded m (err e) = ok (failure (failed_encode e), m)
  encoded m panic = panic
  encoded m blocked = blocked
  encoded m out_of_fuel = out_of_fuel

  -- The end of `GetOutboundTraffic`, on what the scheduler gave.
  unfoldable pub encode_next : Manager → Option Cell → Outcome (Reply (List ℕ) × Manager)
  unfolding encoded
  encode_next m none = ok (failure no_outbound_traffic, m)
  encode_next m (some c) = encoded m (encode_cell c)

  unfoldable pub get_outbound_traffic : Manager → ℕ → Outcome (Reply (List ℕ) × Manager)
  unfolding lock
  get_outbound_traffic m now = do
    m1 ← lock m
    (next, s) ← get_next_cell m1.scheduler now
    encode_next (unlock (record m1 { scheduler = s })) next

  -- What `ProcessInboundTraffic` does with the answer of the reassembler.
  unfoldable pub accept : Manager → Outcome (Option (List ℕ)) → Outcome (Reply (Unit {0}) × Manager)
  accept m (ok none) = ok (value tt, m)
  accept m (ok (some payload)) =
      ok (value tt, record m { inbound_queue = m.inbound_queue ++ payload })
  accept m (err e) = ok (failure (failed_reassemble e), m)
  accept m panic = panic
  accept m blocked = blocked
  accept m out_of_fuel = out_of_fuel

  unfoldable pub process_decoded : Manager → Cell → Outcome (Reply (Unit {0}) × Manager)
  unfolding accept
  process_decoded m c =
      let bucket = discretize_payload_size (length c.payload) in
      let (answer, r) = process_cell m.reassembler c in
      let m' = record m {
        observation_queue = m.observation_queue ++ (bucket ∷ []);
        reassembler = r;
      } in
      let accepted = accept m' answer in if c.type == type_data then accepted else ok (value tt, m)

  unfoldable pub after_decoding : Manager → Outcome Cell → Outcome (Reply (Unit {0}) × Manager)
  unfolding process_decoded
  after_decoding m (ok c) = process_decoded m c
  after_decoding m (err e) = ok (failure (failed_decode e), m)
  after_decoding m panic = panic
  after_decoding m blocked = blocked
  after_decoding m out_of_fuel = out_of_fuel

  unfoldable pub process_inbound_traffic :
      Manager → List ℕ → List ℕ → Outcome (Reply (Unit {0}) × Manager)
  unfolding lock after_decoding
  process_inbound_traffic m bytes spare = do
    m1 ← lock m
    after_decoding (unlock m1) (decode_cell bytes spare)

  -- `none` is the nil slice. The bytes are those that the buffer held; the slice that Go returns still
  -- lies in the buffer, and the next write may change it.
  unfoldable pub read_application_data : Manager → Outcome (Option (List ℕ) × Manager)
  unfolding lock
  read_application_data m = do
    m1 ← lock m
    let read : Option (List ℕ) × Manager =
        (some m1.inbound_queue, unlock (record m1 { inbound_queue = [] }))
    ok (if length m1.inbound_queue == 0 then (none, unlock m1) else read)

  -- One round of `startCoverTrafficLoop`.
  unfoldable pub cover_traffic_tick : Manager → CellDraws → ℕ → Outcome Manager
  unfolding lock
  cover_traffic_tick m draws now = do
    m1 ← lock m
    dummy ← create_dummy_cell m1.framer draws
    s ← schedule_cell m1.scheduler dummy now
    ok (unlock (record m1 { scheduler = s }))

  -- What a round of `startDynamicProfilingLoop` does with the answer of `Predict`; the call of
  -- `SetProfile` is made with the mutex held.
  unfoldable pub after_prediction : Manager → ℕ → Outcome TrafficType → Outcome Manager
  unfolding set_profile
  after_prediction m now (ok t) = do
    m' ←
        if same_type t (get_profile_type m.framer.profile)
        then ok m
        else set_profile m (get_profile t) now
    ok (unlock (record m' { observation_queue = [] }))
  after_prediction m now (err e) = ok (unlock m)
  after_prediction m now panic = panic
  after_prediction m now blocked = blocked
  after_prediction m now out_of_fuel = out_of_fuel

  -- One round of `startDynamicProfilingLoop`.
  unfoldable pub profiling_tick : Manager → ℕ → Outcome Manager
  unfolding lock after_prediction
  profiling_tick m now = do
    m1 ← lock m
    if ltb (length m1.observation_queue) 10
        then ok (unlock m1)
        else after_prediction m1 now (predict m1.classifier m1.observation_queue)

-- ===== src/Manager/Reach.antt =====
-- The managers that the program reaches: what the connection, the application and the two loops call,
-- in any order.
use disguise.Common.{
  ℕ, ◌≡◌, ◌<◌, ◌^◌, refl, ap, List, Option, Outcome, ok, blocked, ok-injective, false, Bool-cases,
  inl, inr, sym, ◌∙◌, All, [],
}
use disguise.Common.Floats.{Floats}
use disguise.Profile.{Profile, same_type, get_profile_type}
use disguise.Profile.Draws.{IsUsable}
use disguise.Framing.Fragment.{CellDraws}
use disguise.Manager.{
  Manager, Reply, new_manager, set_profile, queue_application_data, get_outbound_traffic,
  process_inbound_traffic, read_application_data, cover_traffic_tick, profiling_tick,
}
use disguise.Manager.Invariant.{IsManager, new_manager-IsManager}
use disguise.Manager.Invariant.Kept.{set_profile-IsManager}
use disguise.Manager.Outbound.{queue_application_data_lem, cover_traffic_tick-IsManager}
use disguise.Manager.Sending.{get_outbound_traffic-IsManager}
use disguise.Manager.Inbound.{process_inbound_traffic-IsManager, read_application_data_lem}
use disguise.Manager.Profiling.{profiling_tick_lem}

module _ ⦃F : Floats⦄ where
  -- One call that returns, with its answer left out. The clock fits the field of the header, and a
  -- profile that is set is usable.
  pub data Step (m : Manager) : Manager → Type 0 where
    switch :
        {m' : Manager} (p : Profile) (now : ℕ)
        → IsUsable p
        → set_profile m p now ≡ ok m'
        → Step m m'
    queue :
        {m' : Manager} (bytes : List ℕ) (id : Option (ℕ × ℕ)) (draws : ℕ → CellDraws)
        (times : ℕ → ℕ)
        → ((j : ℕ) → (draws j).now < 256 ^ 8)
        → queue_application_data m bytes id draws times ≡ ok m'
        → Step m m'
    send :
        {m' : Manager} (now : ℕ) (reply : Reply (List ℕ))
        → get_outbound_traffic m now ≡ ok (reply, m')
        → Step m m'
    receive :
        {m' : Manager} (bytes spare : List ℕ) (reply : Reply (Unit {0}))
        → process_inbound_traffic m bytes spare ≡ ok (reply, m')
        → Step m m'
    read :
        {m' : Manager} (answer : Option (List ℕ))
        → read_application_data m ≡ ok (answer, m')
        → Step m m'
    cover :
        {m' : Manager} (draws : CellDraws) (now : ℕ)
        → draws.now < 256 ^ 8
        → cover_traffic_tick m draws now ≡ ok m'
        → Step m m'
    profile : {m' : Manager} (now : ℕ) → profiling_tick m now ≡ ok m' → Step m m'

  pub data Reach : Manager → Type 0 where
    start : (now : ℕ) → Reach (new_manager now)
    after : {m m' : Manager} → Reach m → Step m m' → Reach m'

  unlocked-IsManager :
      (m : Manager) (observations : List ℕ)
      → All (λ o. o < 3) observations
      → IsManager m
      → IsManager (record m { observation_queue = observations; locked = false })
  unlocked-IsManager m observations small h = record {
    open_lock = refl;
    usable = h.usable;
    numbered = h.numbered;
    queue = h.queue;
    cells = h.cells;
    model = h.model;
    buckets = small;
  }

  -- A round of the profiling loop that returns keeps the invariant.
  profiling_tick-IsManager :
      (m : Manager) (now : ℕ) (m' : Manager)
      → IsManager m
      → profiling_tick m now ≡ ok m'
      → IsManager m'
  profiling_tick-IsManager m now m' h e = elim (profiling_tick_lem m now h) [
    | inl (few, done) ↦
        rw (← ok-injective (sym done ∙ e)) (unlocked-IsManager m m.observation_queue h.buckets h)
    | inr (many, t, named, state, done) ↦
        elim (Bool-cases (same_type t (get_profile_type m.framer.profile))) [
          | inl same ↦
              rw (← ok-injective (sym (rw same at done) ∙ e)) (unlocked-IsManager m [] tt h)
          | inr differs ↦ absurd (stuck (sym (rw differs at done) ∙ e))
        ]
  ]
    where
      stuck : ◌≡◌ {A = Outcome Manager} blocked (ok m') → ⊥
      stuck q = cc

  Step-IsManager : (m m' : Manager) → IsManager m → Step m m' → IsManager m'
  Step-IsManager m m' h (switch p now usable e) = set_profile-IsManager m p now h usable e
  Step-IsManager m m' h (queue bytes id draws times clock e) =
      let (m1, cells, done, _, _, _, kept) =
        queue_application_data_lem m bytes id draws times h clock in
      rw (ok-injective (rw done at e)) at kept
  Step-IsManager m m' h (send now reply e) = (get_outbound_traffic-IsManager m now reply m' h e).0
  Step-IsManager m m' h (receive bytes spare reply e) =
      process_inbound_traffic-IsManager m bytes spare reply m' h e
  Step-IsManager m m' h (read answer e) =
      let (m1, done, _, kept) = read_application_data_lem m h in
      rw (ap (λ x. x.1) (ok-injective (rw done at e))) at kept
  Step-IsManager m m' h (cover draws now clock e) =
      let (m1, done, kept) = cover_traffic_tick-IsManager m draws now h clock in
      rw (ok-injective (rw done at e)) at kept
  Step-IsManager m m' h (profile now e) = profiling_tick-IsManager m now m' h e

  -- Every manager that is reached from a new one, by calls that return in any order, is well
  -- formed: its mutex is free, its profile usable, its sequence number a uint32, its queue a heap
  -- whose items know their places, every queued cell's fields fit the header, the tables of its
  -- classifier are whole, and its observations are buckets. The clock's readings fit the header
  -- and the profiles that are set are usable.
  pub Reach-IsManager : (m : Manager) → Reach m → IsManager m
  Reach-IsManager m (start now) = new_manager-IsManager now
  Reach-IsManager m (after {m = earlier} reached step) =
      Step-IsManager earlier m (Reach-IsManager earlier reached) step

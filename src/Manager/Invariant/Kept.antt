-- ===== src/Manager/Invariant/Kept.antt =====
-- The invariant under `SetProfile` and under the loop of `QueueApplicationData`.
use disguise.Common.{
  ℕ, ◌+◌, ◌<◌, ◌≡◌, refl, ◌∙◌, List, [], ◌∷◌, ◌++◌, ltb, false, All, arith, Bool-cases, inl, inr,
  ◌⊎◌,
}
use disguise.Common.{Outcome, ok, panic, ok-injective, length, length-append}
use disguise.Common.Everywhere.{All-append}
use disguise.Common.Floats.{Floats}
use disguise.Profile.{
  Profile, TrafficType, web_browsing, video_streaming, file_download, dynamic, get_profile_type,
}
use disguise.Profile.Draws.{IsUsable}
use disguise.Framing.{Cell, IsCell, Framer}
use disguise.Scheduler.{Scheduler, schedule_cell, get_next_cell, priority_of}
use disguise.Scheduler.View.{entries}
use disguise.Scheduler.Send.{IsQueue, schedule_cell_lem}
use disguise.Classifier.{Classifier, train, discretize_payload_size}
use disguise.Classifier.Predict.{discretize_payload_size-lt}
use disguise.Classifier.Train.{IsModel, train-IsModel, train-dynamic, train-dynamic_once}
use disguise.Manager.{Manager, lock, after_training, train_before_switch, set_profile, queue_cells}
use disguise.Manager.Invariant.{IsManager, AreCells, AreCells-perm}
use disguise.Framing as Framing
use disguise.Scheduler as Scheduler
use mathlib.Core.List.{Perm, perm_middle}
use mathlib.Core.List.Perm

module _ ⦃F : Floats⦄ where
  -- The cells with their due times, as the loop of `QueueApplicationData` schedules them.
  unfoldable pub stamped : Profile → List Cell → (ℕ → ℕ) → ℕ → List (Cell × ℕ)
  stamped p [] times i = []
  stamped p (c ∷ cells) times i = (c, priority_of p c (times i)) ∷ stamped p cells times (i + 1)

  -- Training never breaks the model: it returns a whole one or panics.
  train_cases :
      (h : Classifier) (observations : List ℕ) (t : TrafficType)
      → IsModel h
      → 0 < length observations
      → (train h observations t ≡ panic)
        ⊎ ((h' : Classifier) × (train h observations t ≡ ok h') × IsModel h')
  train_cases h [] t m some_left = absurd (omega arith)
  train_cases h (obs ∷ rest) web_browsing m some_left =
      inr (train-IsModel h obs rest web_browsing m (omega arith))
  train_cases h (obs ∷ rest) video_streaming m some_left =
      inr (train-IsModel h obs rest video_streaming m (omega arith))
  train_cases h (obs ∷ rest) file_download m some_left =
      inr (train-IsModel h obs rest file_download m (omega arith))
  train_cases h (obs ∷ []) dynamic m some_left = inr (train-dynamic_once h obs m)
  train_cases h (obs ∷ obs' ∷ rest) dynamic m some_left = inl (train-dynamic h obs obs' rest m)

  switched-IsManager :
      (m : Manager) (p : Profile) (now : ℕ) (c : Classifier) (o : List ℕ)
      → IsManager m
      → IsUsable p
      → IsModel c
      → All (λ o. o < 3) o
      → IsManager (record m {
        classifier = c;
        observation_queue = o;
        framer = Framing.set_profile m.framer p;
        scheduler = Scheduler.set_profile m.scheduler p;
        last_profile_switch = now;
        locked = false;
      })
  unfolding Framing.set_profile Scheduler.set_profile
  switched-IsManager m p now c o h u model small = record {
    open_lock = refl;
    usable = u;
    numbered = h.numbered;
    queue = h.queue;
    cells = h.cells;
    model = model;
    buckets = small;
  }

  -- `SetProfile` to a usable profile keeps the invariant, unless it panics.
  pub set_profile-IsManager :
      (m : Manager) (p : Profile) (now : ℕ) {m' : Manager}
      → IsManager m
      → IsUsable p
      → set_profile m p now ≡ ok m'
      → IsManager m'
  unfolding set_profile lock train_before_switch after_training
  set_profile-IsManager m p now {m'} h u e =
      elim (Bool-cases (ltb 0 (length m.observation_queue))) [
        | inl queued ↦
            elim (train_cases m.classifier m.observation_queue (get_profile_type m.framer.profile)
              h.model (ground arith)) [
                | inl broken ↦ absurd (no_panic (rw (h.open_lock, queued, broken) at e))
                | inr (c, trained, whole) ↦
                    rw (← ok-injective (rw (h.open_lock, queued, trained) at e))
                      (switched-IsManager m p now c [] h u whole tt)
              ]
        | inr empty ↦
            rw (← ok-injective (rw (h.open_lock, empty) at e))
              (switched-IsManager m p now m.classifier m.observation_queue h u h.model h.buckets)
      ]
    where
      no_panic : ◌≡◌ {A = Outcome Manager} panic (ok m') → ⊥
      no_panic q = cc

  -- The loop of `QueueApplicationData` does not panic. It schedules every cell at its time, notes a bucket
  -- for each, and changes nothing else.
  pub queue_cells_lem :
      (m : Manager) (cells : List Cell) (times : ℕ → ℕ) (i : ℕ)
      → IsQueue m.scheduler.queue
      → AreCells m.scheduler.queue
      → All IsCell cells
      → All (λ o. o < 3) m.observation_queue
      → (s : Scheduler) × (o : List ℕ) × (queue_cells m cells times i
          ≡ ok (record m { scheduler = s; observation_queue = o }))
        × IsQueue s.queue
        × AreCells s.queue
        × Perm
            (entries s.queue)
            (stamped m.scheduler.profile cells times i ++ entries m.scheduler.queue)
        × All (λ o. o < 3) o
        × (s.profile ≡ m.scheduler.profile)
        × (length o ≡ length m.observation_queue + length cells)
  unfolding queue_cells stamped
  queue_cells_lem m [] times i q all fits small = (
    m.scheduler,
    m.observation_queue,
    refl,
    q,
    all,
    Perm.refl (entries m.scheduler.queue),
    small,
    refl,
    omega arith,
  )
  queue_cells_lem m (c ∷ cells) times i q all fits small =
      let due = priority_of m.scheduler.profile c (times i) in
      let (s, done, q', same, profile) = schedule_cell_lem m.scheduler c (times i) q in
      let bucket = discretize_payload_size (length c.payload) in
      let o = m.observation_queue ++ (bucket ∷ []) in
      let m' = record m { scheduler = s; observation_queue = o } in
      let (s', o', rest, q'', all', same', small', profile', count) =
        queue_cells_lem m' cells times (i + 1) q'
          (AreCells-perm m.scheduler.queue s.queue c due same fits.0 all) fits.1
          (All-append (λ o. o < 3) m.observation_queue (bucket ∷ []) small
            (discretize_payload_size-lt (length c.payload), tt)) in
      (
        s',
        o',
        rw done rest,
        q'',
        all',
        Perm.trans (rw profile at same') (
            Perm.trans
              (Perm.append (Perm.refl (stamped m.scheduler.profile cells times (i + 1))) same)
              (perm_middle (stamped m.scheduler.profile cells times (i + 1))
                (entries m.scheduler.queue))),
        small',
        profile' ∙ profile,
        omega (arith, count, length-append m.observation_queue (bucket ∷ [])),
      )

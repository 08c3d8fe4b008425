-- ===== src/Manager/Profiling.antt =====
-- `startDynamicProfilingLoop` and `SetProfile`: who holds the mutex, and what is trained.
use disguise.Common.{
  ℕ, ◌≤◌, ◌<◌, ◌≡◌, ◌∙◌, List, [], ◌∷◌, ltb, if◌then◌else◌, true, false, All, arith,
}
use disguise.Common.{inl, inr, ◌⊎◌, Bool-cases, ok, panic, blocked, length}
use disguise.Common.Floats.{Floats}
use disguise.Profile.{Profile, TrafficType, dynamic, same_type, get_profile_type}
use disguise.Classifier.{Classifier, predict, train}
use disguise.Classifier.Predict.{IsState, predict_lem}
use disguise.Classifier.Train.{IsModel, train-dynamic}
use disguise.Manager.{
  Manager, lock, unlock, train_before_switch, set_profile, profiling_tick, after_prediction,
}
use disguise.Manager.Invariant.{IsManager}

module _ ⦃F : Floats⦄ where
  predicted :
      (h : Classifier) (observations : List ℕ)
      → IsModel h
      → All (λ o. o < 3) observations
      → 0 < length observations
      → (t : TrafficType) × (predict h observations ≡ ok t) × IsState t
  predicted h [] model small some_left = absurd (omega arith)
  predicted h (obs ∷ observations) model small some_left =
      predict_lem h obs observations model.ready small

  -- On a well-formed manager under the dynamic profile, with two or more queued observations,
  -- `SetProfile` panics.
  pub set_profile-dynamic :
      (m : Manager) (p : Profile) (now : ℕ)
      → IsManager m
      → get_profile_type m.framer.profile ≡ dynamic
      → 2 ≤ length m.observation_queue
      → set_profile m p now ≡ panic
  unfolding set_profile lock train_before_switch
  set_profile-dynamic m p now h current several =
      let queued : ltb 0 (length m.observation_queue) ≡ true = ground arith in
      rw (h.open_lock, queued, current, panics m.observation_queue several)
    where
      panics : (o : List ℕ) → 2 ≤ length o → train m.classifier o dynamic ≡ panic
      panics [] few = absurd (omega arith)
      panics (a ∷ []) few = absurd (omega arith)
      panics (a ∷ b ∷ rest) few = train-dynamic m.classifier a b rest h.model

  held :
      (m : Manager) (t : TrafficType) (now : ℕ)
      → after_prediction (record m { locked = true }) now (ok t) ≡ (
          if same_type t (get_profile_type m.framer.profile)
          then ok (record m { observation_queue = []; locked = false })
          else blocked)
  unfolding after_prediction lock
  held m t now = ground arith

  -- One round of the profiling loop of a well-formed manager. With fewer than ten observations it
  -- leaves the manager as it was. With ten or more `Predict` returns one of the three static
  -- profiles; if that is the active one the observations are dropped, and if not the round blocks,
  -- with the mutex held.
  pub profiling_tick_lem :
      (m : Manager) (now : ℕ)
      → IsManager m
      → ((length m.observation_queue < 10) × (profiling_tick m now ≡ ok (unlock m)))
        ⊎ ((10 ≤ length m.observation_queue)
            × (t : TrafficType) × (predict m.classifier m.observation_queue ≡ ok t)
            × IsState t
            × (profiling_tick m now ≡ (
                if same_type t (get_profile_type m.framer.profile)
                then ok (record m { observation_queue = []; locked = false })
                else blocked)))
  unfolding profiling_tick lock
  profiling_tick_lem m now h = elim (Bool-cases (ltb (length m.observation_queue) 10)) [
    | inl few ↦ inl (ground arith, rw (h.open_lock, few))
    | inr many ↦
        let (t, named, state) =
          predicted m.classifier m.observation_queue h.model h.buckets (ground arith) in
        inr (ground arith, t, named, state, rw (h.open_lock, many, named) (held m t now))
  ]

  -- On a well-formed manager under the dynamic profile, with ten or more queued observations, a
  -- round of the profiling loop blocks on the mutex that it holds.
  pub profiling_tick-dynamic :
      (m : Manager) (now : ℕ)
      → IsManager m
      → get_profile_type m.framer.profile ≡ dynamic
      → 10 ≤ length m.observation_queue
      → profiling_tick m now ≡ blocked
  profiling_tick-dynamic m now h current many = elim (profiling_tick_lem m now h) [
    | inl (few, idle) ↦ absurd (omega (arith, few))
    | inr (enough, t, named, state, round) ↦
        let differs : same_type t dynamic ≡ false = ground arith in round ∙ rw (current, differs)
  ]

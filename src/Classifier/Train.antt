-- ===== src/Classifier/Train.antt =====
-- `Train` of disguise/classifier.go and the tables of the model.
use disguise.Common.{
  ℕ, ◌-◌, ◌<◌, ◌≡◌, refl, ap, ◌∙◌, List, [], ◌∷◌, ◌++◌, map, ltb, leb, ◌==◌, true, false,
  Bool-cases, inl, inr, arith,
}
use disguise.Common.{none, ok, panic, length, set, length-set, drop, drop_all, length-append, All}
use disguise.Common.Maps.{lookup, insert}
use disguise.Common.Floats.{Floats}
use disguise.Profile.{TrafficType, dynamic, iota}
use disguise.Classifier.{
  Classifier, number, count_emissions, normal, total_of, normalize_emissions, normalize_row,
  normalize_transitions, normalize, count_transitions, train, new_classifier,
}
use disguise.Classifier.Predict.{HasRows, IsReady, IsState}
use disguise.Scheduler.Array.{length-map}
use disguise.Classifier.Tables.{
  HasKeys, HasKeys-insert, HasRows-insert, All-insert, IsRow, IsKey, three_keys, three_rows,
}

module _ ⦃F : Floats⦄ where
  -- The model has rows for the three states and for nothing else.
  pub record IsModel (h : Classifier) : Type 0 where
    pub ready : IsReady h
    pub emission_rows : HasRows h.emission_counts
    pub emission_entries : All IsRow h.emission_counts
    pub transition_rows : HasKeys h.transition_probs
    pub transition_keys : HasKeys h.transition_counts
    pub transition_entries : All IsKey h.transition_counts

  -- The model of `NewHMMClassifier`.
  pub new_classifier-IsModel : IsModel new_classifier
  unfolding new_classifier lookup
  new_classifier-IsModel = record {
    ready = record { three = refl; rows = three_rows _ _ _ refl refl refl };
    emission_rows = three_rows _ _ _ refl refl refl;
    emission_entries = omega arith;
    transition_rows = three_keys _ _ _;
    transition_keys = three_keys _ _ _;
    transition_entries = omega arith;
  }

  length-count_emissions :
      (counts : List F.Float) (observations : List ℕ)
      → length (count_emissions counts observations) ≡ length counts
  unfolding count_emissions
  length-count_emissions counts [] = refl
  length-count_emissions counts (obs ∷ observations) = elim (Bool-cases (leb (length counts) obs)) [
    | inl past ↦ rw past (length-count_emissions counts observations)
    | inr inside ↦
        rw inside (length-count_emissions (set counts obs _) observations ∙ length-set counts obs _)
  ]

  normalize_emissions-ok :
      (epsilon : F.Float) (m probs : List (ℕ × List F.Float))
      → All IsRow m
      → HasRows probs
      → (probs' : List (ℕ × List F.Float)) × (normalize_emissions epsilon m probs ≡ ok probs')
        × HasRows probs'
  unfolding normalize_emissions
  normalize_emissions-ok epsilon [] probs all h = (probs, refl, h)
  normalize_emissions-ok epsilon ((state, counts) ∷ m) probs all h =
      let (old, there, size) = h state all.0.0 in
      let fresh = map (normal epsilon (total_of counts) (length counts)) counts in
      let whole : length (fresh ++ drop (length counts) old) ≡ 3 = omega (
        arith,
        all.0.1,
        length-append fresh (drop (length counts) old),
        length-map (normal epsilon (total_of counts) (length counts)) counts,
        ap length (drop_all (length counts) old (omega (arith, all.0.1, size))),
      ) in
      let fits : leb (length counts) (length old) ≡ true = ground (arith, all.0.1, size) in
      let (probs', e, rows) =
        normalize_emissions-ok epsilon m (insert state (fresh ++ drop (length counts) old) probs)
          all.1 (HasRows-insert probs state _ whole h) in
      (probs', rw (there, fits, e), rows)

  normalize_transitions-ok :
      (epsilon : F.Float) (m probs : List (ℕ × List (ℕ × F.Float)))
      → All IsKey m
      → HasKeys probs
      → (probs' : List (ℕ × List (ℕ × F.Float))) × (normalize_transitions epsilon m probs
          ≡ ok probs')
        × HasKeys probs'
  unfolding normalize_transitions
  normalize_transitions-ok epsilon [] probs all h = (probs, refl, h)
  normalize_transitions-ok epsilon ((state, []) ∷ m) probs all h =
      normalize_transitions-ok epsilon m probs all.1 h
  normalize_transitions-ok epsilon ((state, c ∷ counts) ∷ m) probs all h =
      let (old, there) = h state all.0 in
      let (probs', e, rows) =
        normalize_transitions-ok epsilon m
          (insert state
            (normalize_row epsilon (total_of (map (λ (e : ℕ × F.Float). e.1) (c ∷ counts)))
              (length (c ∷ counts)) (c ∷ counts) old)
            probs)
          all.1 (HasKeys-insert probs state _ h) in
      (probs', rw (there, e), rows)

  count_transitions-ok :
      (truth n : ℕ) (m : List (ℕ × List (ℕ × F.Float)))
      → truth < 3
      → HasKeys m
      → All IsKey m
      → (m' : List (ℕ × List (ℕ × F.Float))) × (count_transitions truth n m ≡ ok m')
        × HasKeys m'
        × All IsKey m'
  unfolding count_transitions
  count_transitions-ok truth n m small h all = elim (Bool-cases (ltb 1 n)) [
    | inl several ↦
        let (r, there) = h truth small in
        (
          insert truth (insert truth (F.add (number (lookup truth r)) (F.of_int (n - 1))) r) m,
          rw (several, there),
          HasKeys-insert m truth _ h,
          All-insert IsKey m truth _ small all,
        )
    | inr one ↦ (m, rw one, h, all)
  ]

  -- The two normalisations of a model whose counts were updated.
  normalize-IsModel :
      (h : Classifier) (emission_counts : List (ℕ × List F.Float))
      (transition_counts : List (ℕ × List (ℕ × F.Float)))
      → IsModel h
      → HasRows emission_counts
      → All IsRow emission_counts
      → HasKeys transition_counts
      → All IsKey transition_counts
      → (h' : Classifier) × (normalize
            (record h { emission_counts = emission_counts; transition_counts = transition_counts })
          ≡ ok h')
        × IsModel h'
  unfolding normalize
  normalize-IsModel h emission_counts transition_counts m counted entries keys key_entries =
      let (emissions, normal_rows, rows) =
        normalize_emissions-ok h.epsilon emission_counts h.emission_probs entries m.ready.rows in
      let (transitions, normal_keys, probs) =
        normalize_transitions-ok h.epsilon transition_counts h.transition_probs key_entries
          m.transition_rows in
      (
        record h {
          emission_counts = emission_counts;
          transition_counts = transition_counts;
          emission_probs = emissions;
          transition_probs = transitions;
        },
        rw (normal_rows, normal_keys),
        record {
          ready = record { three = m.ready.three; rows = rows };
          emission_rows = counted;
          emission_entries = entries;
          transition_rows = probs;
          transition_keys = keys;
          transition_entries = key_entries;
        },
      )

  -- On a whole model, `Train` on one or more observations and a static profile returns a whole
  -- model.
  pub train-IsModel :
      (h : Classifier) (obs : ℕ) (rest : List ℕ) (t : TrafficType)
      → IsModel h
      → IsState t
      → (h' : Classifier) × (train h (obs ∷ rest) t ≡ ok h') × IsModel h'
  unfolding train
  train-IsModel h obs rest t m small =
      let (counts, there, size) = m.emission_rows (iota t) small in
      let counted = count_emissions counts (obs ∷ rest) in
      let three : length counted ≡ 3 = length-count_emissions counts (obs ∷ rest) ∙ size in
      let (transition_counts, moved, keys, key_entries) =
        count_transitions-ok (iota t) (length (obs ∷ rest)) h.transition_counts small
          m.transition_keys m.transition_entries in
      let (h', done, model) =
        normalize-IsModel h (insert (iota t) counted h.emission_counts) transition_counts m
          (HasRows-insert h.emission_counts (iota t) counted three m.emission_rows)
          (All-insert IsRow h.emission_counts (iota t) counted (small, three) m.emission_entries)
          keys key_entries in
      (h', rw (there, moved) done, model)

  no_dynamic_row :
      {A : Type 0} (P : ℕ × A → Type 0) (m : List (ℕ × A))
      → ((e : ℕ × A) → P e → e.0 < 3)
      → All P m
      → lookup (iota dynamic) m ≡ none
  unfolding lookup
  no_dynamic_row P [] low all = refl
  no_dynamic_row P ((k, r) ∷ m) low all =
      let small = low (k, r) all.0 in
      let other : (k == 3) ≡ false = ground arith in rw other (no_dynamic_row P m low all.1)

  -- On a whole model, `Train` on two or more observations and the dynamic profile panics.
  pub train-dynamic :
      (h : Classifier) (obs obs' : ℕ) (rest : List ℕ)
      → IsModel h
      → train h (obs ∷ obs' ∷ rest) dynamic ≡ panic
  unfolding train count_transitions
  train-dynamic h obs obs' rest m =
      let several : ltb 1 (length (obs ∷ obs' ∷ rest)) ≡ true = ground arith in
      rw (several, no_dynamic_row IsKey h.transition_counts (λ e low. low) m.transition_entries)

  -- With one observation it returns and keeps the model whole.
  pub train-dynamic_once :
      (h : Classifier) (obs : ℕ)
      → IsModel h
      → (h' : Classifier) × (train h (obs ∷ []) dynamic ≡ ok h') × IsModel h'
  unfolding train count_transitions
  train-dynamic_once h obs m =
      let (h', done, model) =
        normalize-IsModel h h.emission_counts h.transition_counts m m.emission_rows
          m.emission_entries m.transition_keys m.transition_entries in
      (
        h',
        rw (no_dynamic_row IsRow h.emission_counts (λ e low. low.0) m.emission_entries) done,
        model,
      )

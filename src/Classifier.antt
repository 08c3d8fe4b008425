-- ===== src/Classifier.antt =====
-- disguise/classifier.go: the hidden Markov model that names the kind of traffic. A TrafficType is its
-- number, and a map keyed by it is the list of its entries. Each call holds the mutex of the classifier
-- from its first line to its end, and none makes another.
pub mod Predict
pub mod Tables
pub mod Train
mod Tests
use disguise.Common.{
  ℕ, zero, suc, ◌+◌, ◌-◌, ◌≤◌, ◌≡◌, List, [], ◌∷◌, ◌++◌, map, ltb, leb, ◌==◌, if◌then◌else◌, Bool,
}
use disguise.Common.{
  Option, none, some, Outcome, ok, err, panic, empty_observations, ◌>>=◌, ◌>>◌, check, or_panic,
  length, get_elem?, set, drop,
}
use disguise.Common.Maps.{lookup, insert}
use disguise.Common.Floats.{Floats}
use disguise.Profile.{TrafficType, web_browsing, video_streaming, file_download, iota}

-- A missing slice is nil, and a missing number is 0.
abbrev pub row {ℓ} : {A : Type ℓ} → Option (List A) → List A
row none = []
row (some r) = r

-- `DiscretizePayloadSize`
unfoldable pub discretize_payload_size : ℕ → ℕ
discretize_payload_size length = if ltb length 200 then 0 else if ltb length 800 then 1 else 2

module _ ⦃F : Floats⦄ where
  open F use {Float, constant, of_int, add, mul, div, log, most_negative, eq, lt}

  -- `HMMClassifier`
  pub record Classifier : Type 0 where
    pub states : List TrafficType
    pub emission_probs : List (ℕ × List Float)
    pub transition_probs : List (ℕ × List (ℕ × Float))
    pub emission_counts : List (ℕ × List Float)
    pub transition_counts : List (ℕ × List (ℕ × Float))
    pub epsilon : Float

  abbrev pub zero_float : Float
  zero_float = constant 0 0

  abbrev pub number : Option Float → Float
  number none = zero_float
  number (some x) = x

  unfoldable pub sum : Float → List Float → Float
  sum acc [] = acc
  sum acc (x ∷ xs) = sum (add acc x) xs

  -- The smoothing of one row of `emissionProbs` in `NewHMMClassifier`.
  unfoldable pub smooth : Float → List Float → List Float
  unfolding sum
  smooth epsilon r =
      let raised = map (λ p. add p epsilon) r in map (λ p. div p (sum zero_float raised)) raised

  -- A row for each state, the same in every column.
  unfoldable pub uniform : Float → List (ℕ × List (ℕ × Float))
  uniform x =
      let r : List (ℕ × Float) = (0, x) ∷ (1, x) ∷ (2, x) ∷ [] in (0, r) ∷ (1, r) ∷ (2, r) ∷ []

  unfoldable pub new_classifier : Classifier
  unfolding smooth uniform
  new_classifier =
      let epsilon = constant 1 9 in
      let zeros : List Float = zero_float ∷ zero_float ∷ zero_float ∷ [] in
      record {
        states = web_browsing ∷ video_streaming ∷ file_download ∷ [];
        emission_probs =
            (0, smooth epsilon (constant 7 1 ∷ constant 25 2 ∷ constant 5 2 ∷ []))
            ∷ (1, smooth epsilon (constant 1 1 ∷ constant 3 1 ∷ constant 6 1 ∷ []))
            ∷ (2, smooth epsilon (constant 5 2 ∷ constant 5 2 ∷ constant 9 1 ∷ []))
            ∷ [];
        transition_probs = uniform (div (constant 10 1) (of_int 3));
        emission_counts = (0, zeros) ∷ (1, zeros) ∷ (2, zeros) ∷ [];
        transition_counts = uniform zero_float;
        epsilon = epsilon;
      }

  -- `math.Log(h.EmissionProbs[state][obs])`
  unfoldable pub emission : Classifier → TrafficType → ℕ → Outcome Float
  emission h state obs = do
    p ← or_panic (get_elem? (row (lookup (iota state) h.emission_probs)) obs)
    ok (log p)

  -- `math.Log(h.TransitionProbs[prev][cur])`
  unfoldable pub transition : Classifier → TrafficType → TrafficType → Float
  transition h prev cur =
      log (number (lookup (iota cur) (row (lookup (iota prev) h.transition_probs))))

  -- The loop over `prevState`: the largest sum so far. The state that gave it goes to `backpointer`,
  -- which nothing reads.
  unfoldable pub best_step :
      Classifier → TrafficType → Float → List TrafficType → List Float → Float
  best_step h cur best [] column = best
  best_step h cur best (prev ∷ states) [] = best
  best_step h cur best (prev ∷ states) (v ∷ column) =
      let prob = add v (transition h prev cur) in
      best_step h cur (if lt best prob then prob else best) states column

  unfoldable pub first_column : Classifier → ℕ → List TrafficType → Outcome (List Float)
  unfolding emission
  first_column h obs [] = ok []
  first_column h obs (state ∷ states) = do
    e ← emission h state obs
    column ← first_column h obs states
    ok (add (log (div (constant 10 1) (of_int (length h.states)))) e ∷ column)

  unfoldable pub next_column : Classifier → ℕ → List Float → List TrafficType → Outcome (List Float)
  unfolding emission
  next_column h obs column [] = ok []
  next_column h obs column (cur ∷ states) = do
    e ← emission h cur obs
    rest ← next_column h obs column states
    ok (add (best_step h cur most_negative h.states column) e ∷ rest)

  unfoldable pub last_column : Classifier → List ℕ → List Float → Outcome (List Float)
  last_column h [] column = ok column
  last_column h (obs ∷ observations) column = do
    column' ← next_column h obs column h.states
    last_column h observations column'

  -- The state of the largest entry, the first of these.
  unfoldable pub arg_max : TrafficType → Float → List TrafficType → List Float → TrafficType
  arg_max best top [] column = best
  arg_max best top (state ∷ states) [] = best
  arg_max best top (state ∷ states) (v ∷ column) =
      let larger = lt top v in
      arg_max (if larger then state else best) (if larger then v else top) states column

  unfoldable pub predict : Classifier → List ℕ → Outcome TrafficType
  predict h [] = err empty_observations
  predict h (obs ∷ observations) = do
    column ← first_column h obs h.states
    column' ← last_column h observations column
    first ← or_panic (get_elem? h.states 0)
    ok (arg_max first most_negative h.states column')

  -- `counts[obs]++` for each observation that has a place.
  unfoldable pub count_emissions : List Float → List ℕ → List Float
  count_emissions counts [] = counts
  count_emissions counts (obs ∷ observations) =
      let old = number (get_elem? counts obs) in
      count_emissions
        (if leb (length counts) obs then counts else set counts obs (add old (of_int 1)))
        observations

  -- A count turned into a probability.
  unfoldable pub normal : Float → Float → ℕ → Float → Float
  normal epsilon total n count = div (add count epsilon) (add total (mul (of_int n) epsilon))

  unfoldable pub total_of : List Float → Float
  unfolding sum
  total_of counts =
      let total = sum zero_float counts in if eq total zero_float then constant 10 1 else total

  -- The first loop of `reNormalizeProbabilities`: writing past the end of a row panics.
  unfoldable pub normalize_emissions :
      Float → List (ℕ × List Float) → List (ℕ × List Float) → Outcome (List (ℕ × List Float))
  unfolding normal total_of
  normalize_emissions epsilon [] probs = ok probs
  normalize_emissions epsilon ((state, counts) ∷ m) probs = do
    let old = row (lookup state probs)
    check (leb (length counts) (length old))
    let fresh = map (normal epsilon (total_of counts) (length counts)) counts
    normalize_emissions epsilon m (insert state (fresh ++ drop (length counts) old) probs)

  -- The second loop, over the entries of one row and over the rows.
  unfoldable pub normalize_row :
      Float → Float → ℕ → List (ℕ × Float) → List (ℕ × Float) → List (ℕ × Float)
  unfolding normal
  normalize_row epsilon total n [] probs = probs
  normalize_row epsilon total n ((next, count) ∷ m) probs =
      normalize_row epsilon total n m (insert next (normal epsilon total n count) probs)

  -- A missing row is a nil map, and writing to it panics; an empty row of counts writes nothing.
  unfoldable pub normalize_transitions :
      Float
      → List (ℕ × List (ℕ × Float))
      → List (ℕ × List (ℕ × Float))
      → Outcome (List (ℕ × List (ℕ × Float)))
  unfolding normalize_row total_of
  normalize_transitions epsilon [] probs = ok probs
  normalize_transitions epsilon ((state, []) ∷ m) probs = normalize_transitions epsilon m probs
  normalize_transitions epsilon ((state, c ∷ counts) ∷ m) probs = do
    old ← or_panic (lookup state probs)
    let all = c ∷ counts
    let total = total_of (map (λ (e : ℕ × Float). e.1) all)
    normalize_transitions epsilon m
        (insert state (normalize_row epsilon total (length all) all old) probs)

  unfoldable pub normalize : Classifier → Outcome Classifier
  unfolding normalize_emissions normalize_transitions
  normalize h = do
    emissions ← normalize_emissions h.epsilon h.emission_counts h.emission_probs
    transitions ← normalize_transitions h.epsilon h.transition_counts h.transition_probs
    ok (record h { emission_probs = emissions; transition_probs = transitions })

  -- `h.TransitionCounts[truth][truth] += float64(n - 1)`, which panics on a nil map.
  unfoldable pub count_transitions :
      ℕ → ℕ → List (ℕ × List (ℕ × Float)) → Outcome (List (ℕ × List (ℕ × Float)))
  count_transitions truth n m =
      let counted : Outcome (List (ℕ × List (ℕ × Float))) = do
        r ← or_panic (lookup truth m)
        let old = number (lookup truth r)
        ok (insert truth (insert truth (add old (of_int (n - 1))) r) m)
      in if ltb 1 n then counted else ok m

  -- Where the map has no row for `truth` the row is nil, no observation has a place and nothing is
  -- written.
  unfoldable pub with_counts :
      ℕ → Option (List Float) → List ℕ → List (ℕ × List Float) → List (ℕ × List Float)
  unfolding count_emissions
  with_counts truth none observations m = m
  with_counts truth (some r) observations m = insert truth (count_emissions r observations) m

  unfoldable pub train : Classifier → List ℕ → TrafficType → Outcome Classifier
  unfolding with_counts
  train h [] truth = err empty_observations
  train h (obs ∷ rest) truth = do
    let t = iota truth
    let observations = obs ∷ rest
    let emissions = with_counts t (lookup t h.emission_counts) observations h.emission_counts
    transitions ← count_transitions t (length observations) h.transition_counts
    normalize (record h { emission_counts = emissions; transition_counts = transitions })

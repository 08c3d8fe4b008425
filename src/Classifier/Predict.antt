-- ===== src/Classifier/Predict.antt =====
-- `Predict` of disguise/classifier.go, on a model with all its rows.
use disguise.Common.{ℕ, zero, suc, ◌<◌, ◌≡◌, refl, List, [], ◌∷◌, Bool-cases, inl, inr, arith}
use disguise.Common.{some, ok, length, get_elem?, All}
use disguise.Common.Maps.{lookup}
use disguise.Common.Floats.{Floats}
use disguise.Profile.{TrafficType, web_browsing, video_streaming, file_download, iota}
use disguise.Classifier.{
  Classifier, emission, best_step, first_column, next_column, last_column, arg_max, predict,
  discretize_payload_size,
}

-- The bucket of a payload is one of the three that the rows have.
pub discretize_payload_size-lt : (n : ℕ) → discretize_payload_size n < 3
unfolding discretize_payload_size
discretize_payload_size-lt n = ground arith

-- One of the three kinds of traffic that are states of the model.
abbrev pub IsState : TrafficType → Type 0
IsState t = iota t < 3

-- Every state has a row of three numbers.
abbrev pub HasRows : {A : Type 0} → List (ℕ × List A) → Type 0
HasRows {A} m = (k : ℕ) → k < 3 → (r : List A) × (lookup k m ≡ some r) × (length r ≡ 3)

get_elem?_of_lt {ℓ} :
    {A : Type ℓ} (xs : List A) (i : ℕ) → i < length xs → (x : A) × (get_elem? xs i ≡ some x)
get_elem?_of_lt [] i h = absurd (omega arith)
get_elem?_of_lt (x ∷ xs) zero h = (x, refl)
get_elem?_of_lt (x ∷ xs) (suc i) h = get_elem?_of_lt xs i (omega arith)

module _ ⦃F : Floats⦄ where
  pub record IsReady (h : Classifier) : Type 0 where
    pub three : h.states ≡ web_browsing ∷ video_streaming ∷ file_download ∷ []
    pub rows : HasRows h.emission_probs

  emission-ok :
      (h : Classifier) (t : TrafficType) (obs : ℕ)
      → HasRows h.emission_probs
      → IsState t
      → obs < 3
      → (x : F.Float) × (emission h t obs ≡ ok x)
  unfolding emission
  emission-ok h t obs rows state small =
      let (r, there, size) = rows (iota t) state in
      let (p, found) = get_elem?_of_lt r obs (omega (arith, size)) in (F.log p, rw (there, found))

  first_column-ok :
      (h : Classifier) (obs : ℕ) (states : List TrafficType)
      → HasRows h.emission_probs
      → All IsState states
      → obs < 3
      → (column : List F.Float) × (first_column h obs states ≡ ok column)
  unfolding first_column
  first_column-ok h obs [] rows all small = (_, refl)
  first_column-ok h obs (t ∷ states) rows all small =
      let (x, e) = emission-ok h t obs rows all.0 small in
      let (column, rest) = first_column-ok h obs states rows all.1 small in
      (
        F.add (F.log (F.div (F.constant 10 1) (F.of_int (length h.states)))) x ∷ column,
        rw (e, rest),
      )

  next_column-ok :
      (h : Classifier) (obs : ℕ) (column : List F.Float) (states : List TrafficType)
      → HasRows h.emission_probs
      → All IsState states
      → obs < 3
      → (column' : List F.Float) × (next_column h obs column states ≡ ok column')
  unfolding next_column
  next_column-ok h obs column [] rows all small = (_, refl)
  next_column-ok h obs column (t ∷ states) rows all small =
      let (x, e) = emission-ok h t obs rows all.0 small in
      let (column', rest) = next_column-ok h obs column states rows all.1 small in
      (F.add (best_step h t F.most_negative h.states column) x ∷ column', rw (e, rest))

  last_column-ok :
      (h : Classifier) (observations : List ℕ) (column : List F.Float)
      → HasRows h.emission_probs
      → All IsState h.states
      → All (λ o. o < 3) observations
      → (column' : List F.Float) × (last_column h observations column ≡ ok column')
  unfolding last_column
  last_column-ok h [] column rows all small = (_, refl)
  last_column-ok h (obs ∷ observations) column rows all small =
      let (column', e) = next_column-ok h obs column h.states rows all small.0 in
      let (column'', rest) = last_column-ok h observations column' rows all small.1 in
      (column'', rw e rest)

  arg_max-IsState :
      (best : TrafficType) (top : F.Float) (states : List TrafficType) (column : List F.Float)
      → IsState best
      → All IsState states
      → IsState (arg_max best top states column)
  unfolding arg_max
  arg_max-IsState best top [] column b all = b
  arg_max-IsState best top (t ∷ states) [] b all = b
  arg_max-IsState best top (t ∷ states) (v ∷ column) b all = elim (Bool-cases (F.lt top v)) [
    | inl larger ↦ rw larger (arg_max-IsState t v states column all.0 all.1)
    | inr not_larger ↦ rw not_larger (arg_max-IsState best top states column b all.1)
  ]

  -- On one or more observations that are buckets, and a model with its three states and a row of
  -- three emissions for each, `Predict` returns one of the three static profiles, whatever the
  -- arithmetic.
  pub predict_lem :
      (h : Classifier) (obs : ℕ) (observations : List ℕ)
      → IsReady h
      → All (λ o. o < 3) (obs ∷ observations)
      → (t : TrafficType) × (predict h (obs ∷ observations) ≡ ok t) × IsState t
  unfolding predict
  predict_lem h obs observations ready small =
      let all : All IsState h.states = rw ready.three (omega arith) in
      let (column, first) = first_column-ok h obs h.states ready.rows all small.0 in
      let (column', rest) = last_column-ok h observations column ready.rows all small.1 in
      let head : get_elem? h.states 0 ≡ some web_browsing = rw ready.three in
      (
        arg_max web_browsing F.most_negative h.states column',
        rw (first, rest, head),
        arg_max-IsState web_browsing F.most_negative h.states column' (omega arith) all,
      )

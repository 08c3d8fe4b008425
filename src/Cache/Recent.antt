-- ===== src/Cache/Recent.antt =====
-- What the session cache promises: a list of keys and states, the one used last at the front, with no key
-- twice and no more than its capacity.
use disguise.Common.{
  ℕ, ◌≡◌, refl, Bool, true, false, Option, none, some, Option-cases, inl, inr, List, [], ◌∷◌,
  length, ltb, if◌then◌else◌,
}
use disguise.Cache.{Comparable, Entry, Element}

module _ {ℓ κ} {K : Type ℓ} {S : Type κ} where
  abbrev pub drop_last : List (Entry K S) → List (Entry K S)
  drop_last [] = []
  drop_last (x ∷ []) = []
  drop_last (x ∷ y ∷ xs) = x ∷ drop_last (y ∷ xs)

  abbrev pub entries : List (Element K S) → List (Entry K S)
  entries [] = []
  entries (e ∷ es) = e.value ∷ entries es

  module _ ⦃o : Comparable K⦄ where
    abbrev pub find : K → List (Entry K S) → Option (Option S)
    find k [] = none
    find k (x ∷ xs) = if o.same x.session_key k then some x.state else find k xs

    abbrev pub without : K → List (Entry K S) → List (Entry K S)
    without k [] = []
    without k (x ∷ xs) = if o.same x.session_key k then xs else x ∷ without k xs

    -- A key that is there: its state is replaced, or the key goes.
    abbrev pub renew : K → Option S → List (Entry K S) → List (Entry K S)
    renew k none xs = without k xs
    renew k (some s) xs = record { session_key = k; state = some s } ∷ without k xs

    unfoldable pub recent_put : ℕ → K → Option S → List (Entry K S) → List (Entry K S)
    recent_put capacity k s xs = elim (find k xs) [
      | some old ↦ renew k s xs
      | none ↦
          record { session_key = k; state = s }
          ∷ (if ltb (length xs) capacity then xs else drop_last xs)
    ]

    unfoldable pub recent_get : K → List (Entry K S) → List (Entry K S) × (Option S × Bool)
    recent_get k xs = elim (find k xs) [
      | some s ↦ (record { session_key = k; state = s } ∷ without k xs, (s, true))
      | none ↦ (xs, (none, false))
    ]

    pub recent_put-absent :
        (capacity : ℕ) (k : K) (s : Option S) (xs : List (Entry K S))
        → find k xs ≡ none
        → recent_put capacity k s xs
          ≡ record { session_key = k; state = s }
            ∷ (if ltb (length xs) capacity then xs else drop_last xs)
    unfolding recent_put
    recent_put-absent capacity k s xs h = rw (recent_put, h) refl

    pub recent_put-present :
        (capacity : ℕ) (k : K) (s : Option S) (xs : List (Entry K S)) {x : Option S}
        → find k xs ≡ some x
        → recent_put capacity k s xs ≡ renew k s xs
    unfolding recent_put
    recent_put-present capacity k s xs h = rw (recent_put, h) refl

    pub recent_get-absent :
        (k : K) (xs : List (Entry K S)) → find k xs ≡ none → recent_get k xs ≡ (xs, (none, false))
    unfolding recent_get
    recent_get-absent k xs h = rw (recent_get, h) refl

    pub recent_get-present :
        (k : K) (xs : List (Entry K S)) {s : Option S}
        → find k xs ≡ some s
        → recent_get k xs ≡ (record { session_key = k; state = s } ∷ without k xs, (s, true))
    unfolding recent_get
    recent_get-present k xs h = rw (recent_get, h) refl

    -- A session that is put is at the front.
    pub recent_put-front :
        (capacity : ℕ) (k : K) (s : S) (xs : List (Entry K S))
        → (ys : List (Entry K S)) × (recent_put capacity k (some s) xs
            ≡ record { session_key = k; state = some s } ∷ ys)
    recent_put-front capacity k s xs = elim (Option-cases (find k xs)) [
      | inl gone ↦ (_, recent_put-absent capacity k (some s) xs gone)
      | inr (x, found) ↦ (_, recent_put-present capacity k (some s) xs found)
    ]

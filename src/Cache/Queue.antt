-- ===== src/Cache/Queue.antt =====
-- The queue of the session cache: pointers and keys in it, and what unlinking an element leaves.
use disguise.Common.{
  ℕ, ◌<◌, suc, ◌≡◌, refl, sym, ◌∙◌, ap, inl, inr, Bool-cases, ==_iff, true, false, Option, none,
  some, List, [], ◌∷◌, length, ◌==◌, if◌then◌else◌, arith,
}
use disguise.Cache.{Comparable, Entry, Element, deref, unlink}
use disguise.Cache.Recent.{entries, find, without}

module _ {ℓ} {K : Type ℓ} ⦃o : Comparable K⦄ where
  same-false_sym : (j k : K) → o.same j k ≡ false → o.same k j ≡ false
  same-false_sym j k h = elim (Bool-cases (o.same k j)) [
    | inl here ↦
        let key : k ≡ j = (o.same_iff k j).0 here in
        absurd (true-false (sym ((o.same_iff k k).1 refl) ∙ ap (λ a. o.same a k) key ∙ h))
    | inr there ↦ there
  ]
    where
      true-false : true ≡ false → ⊥
      true-false e = cc

module _ {ℓ κ} {K : Type ℓ} {S : Type κ} ⦃o : Comparable K⦄ where
  -- The pointer to the first element that holds a key.
  abbrev pub pointer_of : K → List (Element K S) → Option ℕ
  pointer_of k [] = none
  pointer_of k (e ∷ es) = if o.same e.value.session_key k then some e.pointer else pointer_of k es

  -- No pointer and no key is there twice, and every pointer is below `n`.
  abbrev pub Unique : ℕ → List (Element K S) → Type (ℓ ⊔ κ)
  Unique n [] = Unit {ℓ ⊔ κ}
  Unique n (e ∷ es) =
      (e.pointer < n)
      × (deref e.pointer es ≡ none)
      × (pointer_of e.value.session_key es ≡ none)
      × Unique n es

  pub keys_differ :
      {j k : K} (q : List (Element K S)) {i : ℕ}
      → pointer_of j q ≡ none
      → pointer_of k q ≡ some i
      → o.same j k ≡ false
  keys_differ {j} {k} q h l = elim (Bool-cases (o.same j k)) [
    | inl here ↦ absurd (none-some (sym h ∙ ap (λ a. pointer_of a q) ((o.same_iff j k).0 here) ∙ l))
    | inr there ↦ there
  ]
    where
      none-some : {n : ℕ} → none ≡ some n → ⊥
      none-some e = cc

  pub Unique-mono : (n : ℕ) (q : List (Element K S)) → Unique n q → Unique (suc n) q
  Unique-mono n [] u = tt
  Unique-mono n (e ∷ es) u = (omega (arith, u.0), u.1, u.2, Unique-mono n es u.3)

  -- The next pointer points to nothing.
  pub deref-next : (n : ℕ) (q : List (Element K S)) → Unique n q → deref n q ≡ none
  unfolding deref
  deref-next n [] u = refl
  deref-next n (e ∷ es) u = ground (arith, deref-next n es u.3)

  pub deref-below :
      (n i : ℕ) (q : List (Element K S)) {x : Entry K S} → Unique n q → deref i q ≡ some x → i < n
  unfolding deref
  deref-below n i [] u h = absurd cc
  deref-below n i (e ∷ es) {x} u h = ground (arith, deref-below n i es {x = x} u.3)

  -- A key with a pointer has an entry, the one that the list of entries finds.
  pub find-pointer_of :
      (n : ℕ) (k : K) (q : List (Element K S)) {i : ℕ}
      → Unique n q
      → pointer_of k q ≡ some i
      → (x : Option S) × (deref i q ≡ some (record { session_key = k; state = x }))
        × (find k (entries q) ≡ some x)
        × (entries (unlink i q) ≡ without k (entries q))
  unfolding deref unlink
  find-pointer_of n k [] u h = absurd cc
  find-pointer_of n k (e ∷ es) {i} u h = elim (Bool-cases (o.same e.value.session_key k)) [
    | inl found ↦
        let key : e.value.session_key ≡ k = (o.same_iff e.value.session_key k).0 found in
        let pointer : e.pointer ≡ i = ground arith in
        (
          e.value.state,
          rw ((==_iff e.pointer i).1 pointer)
              (ap (λ j. some (record e.value { session_key = j })) key),
          rw found refl,
          rw (found, (==_iff e.pointer i).1 pointer) refl,
        )
    | inr other ↦
        let there : pointer_of k es ≡ some i = rw other at h in
        let (x, at, found, left) = find-pointer_of n k es u.3 there in
        let ne : (e.pointer == i) ≡ false = ground (arith, at) in
        (x, rw ne at, rw other found, rw (ne, other) (ap (◌∷◌ e.value) left))
  ]

  pub find-none :
      (k : K) (q : List (Element K S)) → pointer_of k q ≡ none → find k (entries q) ≡ none
  find-none k [] h = refl
  find-none k (e ∷ es) h = ground (arith, find-none k es)

  pub length-entries : (q : List (Element K S)) → length (entries q) ≡ length q
  length-entries [] = refl
  length-entries (e ∷ es) = ap suc (length-entries es)

  -- Unlinking leaves other pointers and keys as they were, and the queue without repetition.
  pub deref-unlink-none :
      (i j : ℕ) (q : List (Element K S)) → deref j q ≡ none → deref j (unlink i q) ≡ none
  unfolding deref unlink
  deref-unlink-none i j [] h = refl
  deref-unlink-none i j (e ∷ es) h = ground (arith, deref-unlink-none i j es)

  pub pointer_of-unlink-none :
      (i : ℕ) (k : K) (q : List (Element K S))
      → pointer_of k q ≡ none
      → pointer_of k (unlink i q) ≡ none
  unfolding unlink
  pointer_of-unlink-none i k [] h = refl
  pointer_of-unlink-none i k (e ∷ es) h = ground (arith, pointer_of-unlink-none i k es)

  pub unlink-Unique : (n i : ℕ) (q : List (Element K S)) → Unique n q → Unique n (unlink i q)
  unfolding unlink
  unlink-Unique n i [] u = tt
  unlink-Unique n i (e ∷ es) u = ground (
    arith,
    unlink-Unique n i es u.3,
    deref-unlink-none i e.pointer es u.1,
    pointer_of-unlink-none i e.value.session_key es u.2,
  )

  pub deref-unlink : (n i : ℕ) (q : List (Element K S)) → Unique n q → deref i (unlink i q) ≡ none
  unfolding deref unlink
  deref-unlink n i [] u = refl
  deref-unlink n i (e ∷ es) u = elim (Bool-cases (e.pointer == i)) [
    | inl here ↦ ground (arith, u.1)
    | inr other ↦ ground (arith, deref-unlink n i es u.3)
  ]

  pub length-unlink :
      (i : ℕ) (q : List (Element K S)) {x : Entry K S}
      → deref i q ≡ some x
      → suc (length (unlink i q)) ≡ length q
  unfolding deref unlink
  length-unlink i [] h = absurd cc
  length-unlink i (e ∷ es) {x} h = ground (arith, length-unlink i es {x = x})

  pub pointer_of-unlink :
      (n i : ℕ) (j k : K) (q : List (Element K S))
      → Unique n q
      → pointer_of k q ≡ some i
      → pointer_of j (unlink i q) ≡ (if o.same k j then none else pointer_of j q)
  unfolding deref unlink
  pointer_of-unlink n i j k [] u h = absurd cc
  pointer_of-unlink n i j k (e ∷ es) u h = elim (Bool-cases (o.same e.value.session_key k)) [
    | inl found ↦
        let key : e.value.session_key ≡ k = (o.same_iff e.value.session_key k).0 found in
        let pointer : e.pointer ≡ i = ground arith in
        let gone : pointer_of k es ≡ none = rw key at u.2 in
        rw ((==_iff e.pointer i).1 pointer) (rest found gone)
    | inr other ↦
        let there : pointer_of k es ≡ some i = rw other at h in
        let (x, at, _, _) = find-pointer_of n k es u.3 there in
        let ne : (e.pointer == i) ≡ false = ground (arith, at) in
        let apart : o.same e.value.session_key k ≡ false = other in
        rw ne (kept apart (pointer_of-unlink n i j k es u.3 there))
  ]
    where
      rest :
          o.same e.value.session_key k ≡ true
          → pointer_of k es ≡ none
          → pointer_of j es ≡ (
              if o.same k j
              then none
              else if o.same e.value.session_key j
              then some e.pointer
              else pointer_of j es)
      rest found gone = elim (Bool-cases (o.same k j)) [
        | inl here ↦ let key : k ≡ j = (o.same_iff k j).0 here in rw here (rw key at gone)
        | inr there ↦ rw (there, (o.same_iff e.value.session_key k).0 found, there) refl
      ]

      kept :
          o.same e.value.session_key k ≡ false
          → pointer_of j (unlink i es) ≡ (if o.same k j then none else pointer_of j es)
          → (if o.same e.value.session_key j then some e.pointer else pointer_of j (unlink i es))
            ≡ (if o.same k j
                then none
                else if o.same e.value.session_key j
                then some e.pointer
                else pointer_of j es)
      kept apart below = elim (Bool-cases (o.same e.value.session_key j)) [
        | inl here ↦
            let key : e.value.session_key ≡ j = (o.same_iff e.value.session_key j).0 here in
            let other : o.same k j ≡ false = same-false_sym j k (rw key at apart) in
            rw (here, other) refl
        | inr there ↦ rw there below
      ]

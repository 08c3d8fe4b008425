-- ===== src/Cache/Refines.antt =====
-- Put and Get of the session cache against the list of its entries.
use disguise.Common.{
  ℕ, suc, ◌≡◌, ◌⊎◌, refl, sym, ap, ◌∙◌, inl, inr, Bool, Bool-cases, Option-cases, true, false,
  Option, none, some, List, ◌∷◌, Outcome, ok, ok-injective, length, ltb, ltb→lt, if◌then◌else◌,
  arith,
}
use disguise.Cache.{
  Comparable, Entry, SessionCache, deref, unlink, push_front, assign, forget, replace, evict,
  put_new, put, get_at, get,
}
use disguise.Cache.Recent.{
  drop_last, entries, without, renew, recent_put, recent_get, recent_put-absent, recent_put-present,
  recent_get-absent, recent_get-present,
}
use disguise.Cache.Queue.{
  pointer_of, Unique-mono, deref-next, find-pointer_of, find-none, length-entries, unlink-Unique,
  length-unlink, pointer_of-unlink,
}
use disguise.Cache.Last.{back-some, back_lem}
use disguise.Cache.Invariant.{IsCache, unlink-HasRoom, push_front-IsCache}

module _ {ℓ κ} {K : Type ℓ} {S : Type κ} ⦃o : Comparable K⦄ where
  -- A call on `c` returns a whole cache of the same capacity, with the entries `xs`.
  abbrev pub Becomes :
      SessionCache K S → Outcome (SessionCache K S) → List (Entry K S) → Type (ℓ ⊔ κ)
  Becomes c result xs =
      (c' : SessionCache K S) × (result ≡ ok c')
      × IsCache c'
      × (entries c'.q ≡ xs)
      × (c'.capacity ≡ c.capacity)

  -- A call on `c` returns a whole cache of the same capacity, with the entries and the answer `r`.
  abbrev pub Answers :
      SessionCache K S
      → Outcome (SessionCache K S × (Option S × Bool))
      → List (Entry K S) × (Option S × Bool)
      → Type (ℓ ⊔ κ)
  Answers c result r =
      (c' : SessionCache K S) × (result ≡ ok (c', r.1))
      × IsCache c'
      × (entries c'.q ≡ r.0)
      × (c'.capacity ≡ c.capacity)

  -- Moving the element of a key to the front, with a new state.
  refront-refines :
      (i : ℕ) (k : K) (s : Option S) (c : SessionCache K S)
      → IsCache c
      → pointer_of k c.q ≡ some i
      → Becomes c
          (ok
            (record c { q = push_front i (record { session_key = k; state = s }) (unlink i c.q) }))
          (record { session_key = k; state = s } ∷ without k (entries c.q))
  unfolding push_front
  refront-refines i k s c h at =
      let (old, there, _, left) = find-pointer_of c.next k c.q h.unique at in
      (
        _,
        refl,
        push_front-IsCache k i s (unlink i c.q) c
            (unlink-HasRoom c.next k k i c.q h.unique at (inr refl))
            (omega (arith, length-unlink i c.q there, h.bounded))
            (λ j. h.mapped j ∙ refront j (pointer_of-unlink c.next i j k c.q h.unique at)),
        ap (◌∷◌ (record { session_key = k; state = s })) left,
        refl,
      )
    where
      refront :
          (j : K)
          → pointer_of j (unlink i c.q) ≡ (if o.same k j then none else pointer_of j c.q)
          → pointer_of j c.q ≡ (if o.same k j then some i else pointer_of j (unlink i c.q))
      refront j e = elim (Bool-cases (o.same k j)) [
        | inl here ↦ rw here (ap (λ a. pointer_of a c.q) (sym ((o.same_iff k j).0 here)) ∙ at)
        | inr there ↦ rw there (sym (e ∙ rw there refl))
      ]

  touch-refines :
      (i : ℕ) (k : K) (s : Option S) (c : SessionCache K S)
      → IsCache c
      → pointer_of k c.q ≡ some i
      → deref i c.q ≡ some (record { session_key = k; state = s })
      → Answers c
          (get_at i c)
          (record { session_key = k; state = s } ∷ without k (entries c.q), (s, true))
  unfolding get_at
  touch-refines i k s c h at there =
      let (c', same, whole, now, capacity) = refront-refines i k s c h at in
      (c', rw (there, sym (ok-injective same)) refl, whole, now, capacity)

  replace-refines :
      (i : ℕ) (k : K) (s : Option S) (c : SessionCache K S)
      → IsCache c
      → pointer_of k c.q ≡ some i
      → Becomes c (replace i k s c) (renew k s (entries c.q))
  unfolding replace push_front forget
  replace-refines i k none c h at =
      let (old, there, _, left) = find-pointer_of c.next k c.q h.unique at in
      (
        _,
        refl,
        record {
          mapped = λ j.
              ap (λ r. if o.same k j then none else r) (h.mapped j)
              ∙ sym (pointer_of-unlink c.next i j k c.q h.unique at);
          unique = unlink-Unique c.next i c.q h.unique;
          bounded = omega (arith, length-unlink i c.q there, h.bounded);
          positive = h.positive;
        },
        left,
        refl,
      )
  replace-refines i k (some s) c h at =
      let (old, there, _, _) = find-pointer_of c.next k c.q h.unique at in
      rw there (refront-refines i k (some s) c h at)

  evict-refines :
      (k : K) (s : Option S) (c : SessionCache K S)
      → IsCache c
      → pointer_of k c.q ≡ none
      → length c.q ≡ c.capacity
      → Becomes c (evict k s c) (record { session_key = k; state = s } ∷ drop_last (entries c.q))
  unfolding evict push_front assign forget
  evict-refines k s c h absent full =
      let (e, last) = back-some c.q (omega (arith, full, h.positive)) in
      let (at, there, left) = back_lem c.next c.q e h.unique last in
      let base = record c { m = assign k e.pointer (forget e.value.session_key c.m) } in
      (
        record base {
          q = push_front e.pointer (record { session_key = k; state = s }) (unlink e.pointer c.q);
        },
        rw last refl,
        push_front-IsCache k e.pointer s (unlink e.pointer c.q) base
            (unlink-HasRoom c.next k e.value.session_key e.pointer c.q h.unique at (inl absent))
            (omega (arith, length-unlink e.pointer c.q there, full))
            (λ j.
              ap (λ r. if o.same k j then some e.pointer else r)
                (ap (λ r. if o.same e.value.session_key j then none else r) (h.mapped j)
                  ∙ sym
                      (pointer_of-unlink c.next e.pointer j e.value.session_key c.q h.unique at))),
        ap (◌∷◌ (record { session_key = k; state = s })) left,
        refl,
      )

  put_new-refines :
      (k : K) (s : Option S) (c : SessionCache K S)
      → IsCache c
      → pointer_of k c.q ≡ none
      → Becomes c (put_new k s c) (recent_put c.capacity k s (entries c.q))
  unfolding put_new assign push_front
  put_new-refines k s c h absent =
      rw
        (
          recent_put-absent c.capacity k s (entries c.q) (find-none k c.q absent),
          length-entries c.q,
        )
        (by_room (Bool-cases (ltb (length c.q) c.capacity)))
    where
      x : Entry K S
      x = record { session_key = k; state = s }

      by_room :
          (ltb (length c.q) c.capacity ≡ true) ⊎ (ltb (length c.q) c.capacity ≡ false)
          → Becomes c
              (if ltb (length c.q) c.capacity
                then ok (record c {
                  q = push_front c.next x c.q;
                  m = assign k c.next c.m;
                  next = suc c.next;
                })
                else evict k s c)
              (x ∷ (if ltb (length c.q) c.capacity then entries c.q else drop_last (entries c.q)))
      by_room (inl room) = rw room (
        _,
        refl,
        push_front-IsCache k c.next s c.q (record c { m = assign k c.next c.m; next = suc c.next })
            (record {
              unique = Unique-mono c.next c.q h.unique;
              below = omega arith;
              pointer_free = deref-next c.next c.q h.unique;
              key_free = absent;
            })
            (ltb→lt _ _ room) (λ j. ap (λ r. if o.same k j then some c.next else r) (h.mapped j)),
        refl,
        refl,
      )
      by_room (inr full) = rw full (evict-refines k s c h absent (ground (arith, h.bounded)))

  -- `Put` does to the entries what the recency list does.
  pub put-refines :
      (k : K) (s : Option S) (c : SessionCache K S)
      → IsCache c
      → Becomes c (put k s c) (recent_put c.capacity k s (entries c.q))
  unfolding put
  put-refines k s c h = rw (put, h.mapped k) (go (Option-cases (pointer_of k c.q)))
    where
      go :
          (pointer_of k c.q ≡ none) ⊎ ((i : ℕ) × (pointer_of k c.q ≡ some i))
          → Becomes c
              (elim (pointer_of k c.q) [ some i ↦ replace i k s c | none ↦ put_new k s c ])
              (recent_put c.capacity k s (entries c.q))
      go (inl absent) = rw absent (put_new-refines k s c h absent)
      go (inr (i, at)) =
          let (old, _, found, _) = find-pointer_of c.next k c.q h.unique at in
          rw (at, recent_put-present c.capacity k s (entries c.q) found)
            (replace-refines i k s c h at)

  -- `Get` gives what the recency list gives, and moves the entry to the front.
  pub get-refines :
      (k : K) (c : SessionCache K S) → IsCache c → Answers c (get k c) (recent_get k (entries c.q))
  unfolding get
  get-refines k c h = rw (get, h.mapped k) (go (Option-cases (pointer_of k c.q)))
    where
      go :
          (pointer_of k c.q ≡ none) ⊎ ((i : ℕ) × (pointer_of k c.q ≡ some i))
          → Answers c
              (elim (pointer_of k c.q) [ some i ↦ get_at i c | none ↦ ok (c, (none, false)) ])
              (recent_get k (entries c.q))
      go (inl absent) =
          rw (absent, recent_get-absent k (entries c.q) (find-none k c.q absent))
            (c, refl, h, refl, refl)
      go (inr (i, at)) =
          let (old, there, found, left) = find-pointer_of c.next k c.q h.unique at in
          let (c', same, whole, now, capacity) = touch-refines i k old c h at there in
          rw (at, recent_get-present k (entries c.q) found) (c', same, whole, now, capacity)

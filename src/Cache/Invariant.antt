-- ===== src/Cache/Invariant.antt =====
-- The representation invariant of the session cache, through a push to the front of its queue.
use disguise.Common.{
  ℕ, ◌≤◌, ◌<◌, ◌≡◌, ◌⊎◌, refl, ap, ◌∙◌, inl, inr, Option, none, some, List, length, if◌then◌else◌,
  arith,
}
use disguise.Cache.{Comparable, Element, SessionCache, deref, unlink, push_front}
use disguise.Cache.Queue.{
  pointer_of, Unique, deref-below, find-pointer_of, pointer_of-unlink-none, unlink-Unique,
  deref-unlink, pointer_of-unlink,
}

module _ {ℓ κ} {K : Type ℓ} {S : Type κ} ⦃o : Comparable K⦄ where
  -- The map points to the elements of the queue, which holds no key twice and fits the capacity.
  pub record IsCache (c : SessionCache K S) : Type (ℓ ⊔ κ) where
    pub mapped : (k : K) → c.m k ≡ pointer_of k c.q
    pub unique : Unique c.next c.q
    pub bounded : length c.q ≤ c.capacity
    pub positive : 0 < c.capacity

  -- The key and the pointer of an element that goes to the front are nowhere else in the queue.
  pub record HasRoom (n : ℕ) (k : K) (i : ℕ) (q : List (Element K S)) : Type (ℓ ⊔ κ) where
    pub unique : Unique n q
    pub below : i < n
    pub pointer_free : deref i q ≡ none
    pub key_free : pointer_of k q ≡ none

  -- What unlinking the element of a key leaves has room for that element, and for another key that is
  -- not there.
  pub unlink-HasRoom :
      (n : ℕ) (j k : K) (i : ℕ) (q : List (Element K S))
      → Unique n q
      → pointer_of k q ≡ some i
      → (pointer_of j q ≡ none) ⊎ (j ≡ k)
      → HasRoom n j i (unlink i q)
  unlink-HasRoom n j k i q u at free =
      let (old, there, _, _) = find-pointer_of n k q u at in
      record {
        unique = unlink-Unique n i q u;
        below = deref-below n i q u there;
        pointer_free = deref-unlink n i q u;
        key_free = elim free [
          | inl absent ↦ pointer_of-unlink-none i j q absent
          | inr same ↦
              ap (λ a. pointer_of a (unlink i q)) same
              ∙ pointer_of-unlink n i k k q u at
              ∙ rw ((o.same_iff k k).1 refl) refl
        ];
      }

  pub push_front-IsCache :
      (k : K) (i : ℕ) (x : Option S) (q : List (Element K S)) (c : SessionCache K S)
      → HasRoom c.next k i q
      → length q < c.capacity
      → ((j : K) → c.m j ≡ (if o.same k j then some i else pointer_of j q))
      → IsCache (record c { q = push_front i (record { session_key = k; state = x }) q })
  unfolding push_front
  push_front-IsCache k i x q c room fits h = record {
    mapped = h;
    unique = (room.below, room.pointer_free, room.key_free, room.unique);
    bounded = omega (arith, fits);
    positive = omega (arith, fits);
  }

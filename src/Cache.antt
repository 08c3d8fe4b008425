-- ===== src/Cache.antt =====
-- common.go: `lruSessionCache`, the client's cache of sessions. The queue of `container/list` is the list
-- of its elements, each with a number that stands for the pointer to it.
pub mod Recent
pub mod Queue
pub mod Last
pub mod Invariant
pub mod Refines
pub mod Run
mod Tests
use disguise.Common.{
  ℕ, zero, suc, ◌≡◌, ◌↔◌, Bool, true, false, Option, none, some, List, [], ◌∷◌, Outcome, ok, panic,
  ◌>>=◌, or_panic, length, ltb, ◌==◌, if◌then◌else◌,
}
use disguise.Common.Int.{ℤ, pos, negsuc}

-- The comparison of Go's strings, which are the keys.
pub record Comparable {ℓ} (K : Type ℓ) : Type ℓ where
  pub same : K → K → Bool
  pub same_iff : (j k : K) → (same j k ≡ true) ↔ (j ≡ k)

-- `lruSessionCacheEntry`; the state is none for a nil pointer.
pub record Entry {ℓ κ} (K : Type ℓ) (S : Type κ) : Type (ℓ ⊔ κ) where
  pub session_key : K
  pub state : Option S

-- `list.Element`.
pub record Element {ℓ κ} (K : Type ℓ) (S : Type κ) : Type (ℓ ⊔ κ) where
  pub pointer : ℕ
  pub value : Entry K S

-- `next` is the pointer of the next element to be allocated.
pub record SessionCache {ℓ κ} (K : Type ℓ) (S : Type κ) : Type (ℓ ⊔ κ) where
  pub m : K → Option ℕ
  pub q : List (Element K S)
  pub capacity : ℕ
  pub next : ℕ

module _ {ℓ} {K : Type ℓ} ⦃o : Comparable K⦄ where
  -- `m[k] = i` and `delete(m, k)`.
  unfoldable pub assign : K → ℕ → (K → Option ℕ) → K → Option ℕ
  assign k i m j = if o.same k j then some i else m j

  unfoldable pub forget : K → (K → Option ℕ) → K → Option ℕ
  forget k m j = if o.same k j then none else m j

module _ {ℓ κ} {K : Type ℓ} {S : Type κ} where
  unfoldable pub new_cache : ℤ → SessionCache K S
  new_cache (pos zero) = record { m = λ k. none; q = []; capacity = 64; next = 0 }
  new_cache (pos (suc n)) = record { m = λ k. none; q = []; capacity = suc n; next = 0 }
  new_cache (negsuc n) = record { m = λ k. none; q = []; capacity = 64; next = 0 }

  -- `elem.Value`.
  unfoldable pub deref : ℕ → List (Element K S) → Option (Entry K S)
  deref i [] = none
  deref i (e ∷ es) = if e.pointer == i then some e.value else deref i es

  -- `Remove`.
  unfoldable pub unlink : ℕ → List (Element K S) → List (Element K S)
  unlink i [] = []
  unlink i (e ∷ es) = if e.pointer == i then es else e ∷ unlink i es

  -- `PushFront`, and a move to the front of an element after its entry was set.
  unfoldable pub push_front : ℕ → Entry K S → List (Element K S) → List (Element K S)
  push_front i x q = record { pointer = i; value = x } ∷ q

  -- `Back`.
  unfoldable pub back : List (Element K S) → Option (Element K S)
  back [] = none
  back (e ∷ []) = some e
  back (e ∷ f ∷ es) = back (f ∷ es)

  module _ ⦃o : Comparable K⦄ where
    -- `Put` where the key has an element.
    unfoldable pub replace : ℕ → K → Option S → SessionCache K S → Outcome (SessionCache K S)
    replace i k none c = ok (record c { q = unlink i c.q; m = forget k c.m })
    replace i k (some s) c = do
      entry ← or_panic (deref i c.q)
      ok (record c { q = push_front i (record entry { state = some s }) (unlink i c.q) })

    -- `Put` where the queue is full: the last element is used again.
    unfoldable pub evict : K → Option S → SessionCache K S → Outcome (SessionCache K S)
    evict k s c = do
      elem ← or_panic (back c.q)
      ok (record c {
        q =
            push_front elem.pointer (record { session_key = k; state = s })
              (unlink elem.pointer c.q);
        m = assign k elem.pointer (forget elem.value.session_key c.m);
      })

    unfoldable pub put_new : K → Option S → SessionCache K S → Outcome (SessionCache K S)
    put_new k s c =
        if ltb (length c.q) c.capacity
        then ok (record c {
          q = push_front c.next (record { session_key = k; state = s }) c.q;
          m = assign k c.next c.m;
          next = suc c.next;
        })
        else evict k s c

    unfoldable pub put : K → Option S → SessionCache K S → Outcome (SessionCache K S)
    put k s c = elim (c.m k) [ some i ↦ replace i k s c | none ↦ put_new k s c ]

    -- The state and `ok`.
    unfoldable pub get_at : ℕ → SessionCache K S → Outcome (SessionCache K S × (Option S × Bool))
    get_at i c = do
      entry ← or_panic (deref i c.q)
      ok (record c { q = push_front i entry (unlink i c.q) }, (entry.state, true))

    unfoldable pub get : K → SessionCache K S → Outcome (SessionCache K S × (Option S × Bool))
    get k c = elim (c.m k) [ some i ↦ get_at i c | none ↦ ok (c, (none, false)) ]

-- ===== src/Cache/Run.antt =====
-- The session cache over any sequence of calls, from a new one.
use disguise.Common.{
  ℕ, zero, suc, ◌≡◌, refl, sym, ap, ◌∙◌, Bool, true, Option, none, some, List, [], ◌∷◌, Outcome, ok,
  ◌>>=◌, arith,
}
use disguise.Common.Int.{ℤ, pos, negsuc}
use disguise.Cache.{Comparable, Entry, SessionCache, new_cache, put, get}
use disguise.Cache.Recent.{
  entries, find, recent_put, recent_get, recent_put-absent, recent_put-front, recent_get-present,
}
use disguise.Cache.Queue.{find-none}
use disguise.Cache.Invariant.{IsCache}
use disguise.Cache.Refines.{put-refines, get-refines}

pub data Call {ℓ κ} (K : Type ℓ) (S : Type κ) : Type (ℓ ⊔ κ) where
  call_put : K → Option S → Call K S
  call_get : K → Call K S

module _ {ℓ κ} {K : Type ℓ} {S : Type κ} ⦃o : Comparable K⦄ where
  -- The answers of the calls, and the cache after them.
  unfoldable pub run :
      List (Call K S) → SessionCache K S → Outcome (SessionCache K S × List (Option S × Bool))
  run [] c = ok (c, [])
  run (call_put k s ∷ calls) c = do c' ← put k s c; run calls c'
  run (call_get k ∷ calls) c = do
    (c', answer) ← get k c
    (c'', answers) ← run calls c'
    ok (c'', answer ∷ answers)

  -- The same calls on the recency list.
  unfoldable pub replay :
      ℕ → List (Call K S) → List (Entry K S) → List (Entry K S) × List (Option S × Bool)
  replay n [] xs = (xs, [])
  replay n (call_put k s ∷ calls) xs = replay n calls (recent_put n k s xs)
  replay n (call_get k ∷ calls) xs =
      let (xs', answer) = recent_get k xs in
      let (xs'', answers) = replay n calls xs' in (xs'', answer ∷ answers)

  -- From a whole cache, the calls return, leave a whole cache, and answer as the recency list does.
  pub run-refines :
      (calls : List (Call K S)) (c : SessionCache K S)
      → IsCache c
      → (c' : SessionCache K S) × (run calls c ≡ ok (c', (replay c.capacity calls (entries c.q)).1))
        × IsCache c'
        × (entries c'.q ≡ (replay c.capacity calls (entries c.q)).0)
  unfolding run replay
  run-refines [] c h = (c, refl, h, refl)
  run-refines (call_put k s ∷ calls) c h =
      let (c', same, whole, now, capacity) = put-refines k s c h in
      let (c'', e, w, n) = run-refines calls c' whole in
      (c'', rw same (rw (now, capacity) at e), w, rw (now, capacity) at n)
  run-refines (call_get k ∷ calls) c h =
      let (c', same, whole, now, capacity) = get-refines k c h in
      let (c'', e, w, n) = run-refines calls c' whole in
      (c'', rw (same, e) (rw (now, capacity) refl), w, rw (now, capacity) at n)

  pub new_cache-IsCache : (n : ℤ) → IsCache (new_cache {K = K} {S = S} n)
  unfolding new_cache
  new_cache-IsCache (pos zero) = record {
    mapped = λ k. refl;
    unique = tt;
    bounded = omega arith;
    positive = omega arith;
  }
  new_cache-IsCache (pos (suc n)) = record {
    mapped = λ k. refl;
    unique = tt;
    bounded = omega arith;
    positive = omega arith;
  }
  new_cache-IsCache (negsuc n) = record {
    mapped = λ k. refl;
    unique = tt;
    bounded = omega arith;
    positive = omega arith;
  }

  -- A new cache, whatever the capacity asked for, answers any sequence of calls, without a panic,
  -- as the list of the sessions used last does, and stays whole: the map and the queue agree, and
  -- the queue holds no key twice and no more than the capacity.
  pub run-new_cache :
      (n : ℤ) (calls : List (Call K S))
      → (c : SessionCache K S) × (run calls (new_cache n)
          ≡ ok (c, (replay (new_cache {K = K} {S = S} n).capacity calls []).1))
        × IsCache c
  unfolding new_cache
  run-new_cache n calls =
      let (c, same, whole, _) = run-refines calls (new_cache n) (new_cache-IsCache n) in
      (c, rw (sym (no_entries n)) same, whole)
    where
      no_entries : (n : ℤ) → entries (new_cache {K = K} {S = S} n).q ≡ []
      no_entries (pos zero) = refl
      no_entries (pos (suc n)) = refl
      no_entries (negsuc n) = refl

  -- What `put` puts in front is what `get` finds.
  get-front :
      (k : K) (s : Option S) (c : SessionCache K S) {xs : List (Entry K S)}
      → IsCache c
      → entries c.q ≡ record { session_key = k; state = s } ∷ xs
      → (c' : SessionCache K S) × (get k c ≡ ok (c', (s, true)))
  get-front k s c {xs} h front =
      let (c', same, _, _, _) = get-refines k c h in
      let found : find k (entries c.q) ≡ some s =
        ap (find k) front ∙ rw ((o.same_iff k k).1 refl) refl in
      (c', same ∙ rw (recent_get-present k (entries c.q) found) refl)

  -- A session that is put is the one that the next `Get` of its key returns.
  pub get-put :
      (k : K) (s : S) (c : SessionCache K S)
      → IsCache c
      → (c' c'' : SessionCache K S) × (put k (some s) c ≡ ok c')
        × (get k c' ≡ ok (c'', (some s, true)))
  get-put k s c h =
      let (c', same, whole, now, _) = put-refines k (some s) c h in
      let (xs, front) = recent_put-front c.capacity k s (entries c.q) in
      let (c'', answer) = get-front k (some s) c' whole (now ∙ front) in (c', c'', same, answer)

  -- Putting nil under a key that is not there does not leave it out: the next `Get` answers `nil,
  -- true`.
  pub get-put_nil :
      (k : K) (c : SessionCache K S)
      → IsCache c
      → c.m k ≡ none
      → (c' c'' : SessionCache K S) × (put k none c ≡ ok c') × (get k c' ≡ ok (c'', (none, true)))
  get-put_nil k c h absent =
      let (c', same, whole, now, _) = put-refines k none c h in
      let gone = find-none k c.q (sym (h.mapped k) ∙ absent) in
      let (c'', answer) =
        get-front k none c' whole (now ∙ recent_put-absent c.capacity k none (entries c.q) gone) in
      (c', c'', same, answer)

-- ===== src/Cache/Last.antt =====
-- The last element of the session cache's queue, which makes room for a new key.
use disguise.Common.{ℕ, ◌<◌, ◌≡◌, refl, ap, false, some, List, [], ◌∷◌, length, ◌==◌, ==_iff, arith}
use disguise.Cache.{Comparable, Element, deref, unlink, back}
use disguise.Cache.Recent.{drop_last, entries}
use disguise.Cache.Queue.{pointer_of, Unique, keys_differ}

module _ {ℓ κ} {K : Type ℓ} {S : Type κ} ⦃o : Comparable K⦄ where
  pub back-some : (q : List (Element K S)) → 0 < length q → (e : Element K S) × (back q ≡ some e)
  unfolding back
  back-some [] h = absurd (omega arith)
  back-some (e ∷ []) h = (e, refl)
  back-some (e ∷ f ∷ es) h = back-some (f ∷ es) (omega arith)

  -- Unlinking it is dropping the last entry.
  pub back_lem :
      (n : ℕ) (q : List (Element K S)) (e : Element K S)
      → Unique n q
      → back q ≡ some e
      → (pointer_of e.value.session_key q ≡ some e.pointer)
        × (deref e.pointer q ≡ some e.value)
        × (entries (unlink e.pointer q) ≡ drop_last (entries q))
  unfolding back deref unlink
  back_lem n [] e u h = absurd cc
  back_lem n (f ∷ []) e u h =
      let same : f ≡ e = cc in
      let key = (o.same_iff e.value.session_key e.value.session_key).1 refl in
      let pointer = (==_iff e.pointer e.pointer).1 refl in
      rw same (rw key refl, rw pointer refl, rw pointer refl)
  back_lem n (f ∷ g ∷ es) e u h =
      let (pointer, at, left) = back_lem n (g ∷ es) e u.3 h in
      let key = keys_differ (g ∷ es) u.2 pointer in
      let ne : (f.pointer == e.pointer) ≡ false = ground (arith, u.1, at) in
      (rw key pointer, rw ne at, rw ne (ap (◌∷◌ f.value) left))

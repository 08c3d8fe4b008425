-- ===== src/Cache/Tests.antt =====
-- The session cache at concrete inputs.
use disguise.Common.{ℕ, ◌≡◌, refl, none, some, List, [], ◌∷◌, ok, true, false, ◌==◌, ==_iff}
use disguise.Common.Int.{pos}
use disguise.Cache.{Comparable, SessionCache, new_cache, put, get}
use disguise.Cache.Run.{
  Call, call_put, call_get, run, replay, run-new_cache, new_cache-IsCache, get-put_nil,
}
use disguise.Cache.Recent.{recent_put, recent_get}
use disguise.Cache.Invariant.{IsCache}

instance abbrev numbers : Comparable ℕ
numbers = record { same = ◌==◌; same_iff = ==_iff }

-- Two sessions fit: the third takes the place of the one used least recently.
abbrev calls : List (Call ℕ ℕ)
calls =
    call_put 1 (some 10)
    ∷ call_put 2 (some 20)
    ∷ call_get 1
    ∷ call_put 3 (some 30)
    ∷ call_get 2
    ∷ call_get 1
    ∷ []

replay-calls : (replay 2 calls []).1 ≡ (some 10, true) ∷ (none, false) ∷ (some 10, true) ∷ []
unfolding replay recent_put recent_get
replay-calls = refl

run-new_cache_example :
    (c : SessionCache ℕ ℕ) × (run calls (new_cache (pos 2))
      ≡ ok (c, (replay (new_cache {K = ℕ} {S = ℕ} (pos 2)).capacity calls []).1))
    × IsCache c
run-new_cache_example = run-new_cache (pos 2) calls

get-put_nil_example :
    (c' c'' : SessionCache ℕ ℕ) × (put 7 none (new_cache (pos 1)) ≡ ok c')
    × (get 7 c' ≡ ok (c'', (none, true)))
unfolding new_cache
get-put_nil_example = get-put_nil 7 (new_cache (pos 1)) (new_cache-IsCache (pos 1)) refl

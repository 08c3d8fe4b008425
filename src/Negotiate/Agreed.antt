-- ===== src/Negotiate/Agreed.antt =====
-- The version that client and server agree on is the highest that both support.
use disguise.Common.{
  ℕ, ◌≤◌, ◌<◌, ◌≡◌, refl, sym, ap, ◌∙◌, Bool, true, false, ◌⊎◌, inl, inr, Bool-cases, Option-cases,
  Option, none, some, List, [], ◌∷◌, All, ◌==◌, ==_iff, if◌then◌else◌, arith,
}
use disguise.Common.Choice.{
  contains, first_where, first_where-some, IsFirst-contains, some-injective,
}
use disguise.Negotiate.{Config}
use disguise.Common.Everywhere.{All-map}
use disguise.Negotiate.Versions.{
  all_versions, is_kept, keep_where, supported_versions, mutual_version,
}

-- Each version is above those after it.
abbrev pub Descends : List ℕ → Type 0
Descends [] = Unit {0}
Descends (v ∷ vs) = All (λ w. w < v) vs × Descends vs

pub All-keep_where :
    (P : ℕ → Type 0) (p : ℕ → Bool) (vs : List ℕ) → All P vs → All P (keep_where p vs)
All-keep_where P p [] h = tt
All-keep_where P p (v ∷ vs) h = elim (Bool-cases (p v)) [
  | inl kept ↦ rw kept (h.0, All-keep_where P p vs h.1)
  | inr left ↦ rw left (All-keep_where P p vs h.1)
]

keep_where-Descends : (p : ℕ → Bool) (vs : List ℕ) → Descends vs → Descends (keep_where p vs)
keep_where-Descends p [] h = tt
keep_where-Descends p (v ∷ vs) h = elim (Bool-cases (p v)) [
  | inl kept ↦ rw kept (All-keep_where (λ w. w < v) p vs h.0, keep_where-Descends p vs h.1)
  | inr left ↦ rw left (keep_where-Descends p vs h.1)
]

pub supported_versions-Descends :
    (debug : Bool) (c : Option Config) (is_client : Bool)
    → Descends (supported_versions debug c is_client)
unfolding supported_versions
supported_versions-Descends debug c is_client =
    keep_where-Descends (is_kept debug c is_client) all_versions (grind arith)

-- The first that passes is the highest that does.
first_is_highest :
    (p : ℕ → Bool) (vs : List ℕ) (v : ℕ)
    → Descends vs
    → first_where p vs ≡ some v
    → All (λ w. w ≤ v) (keep_where p vs)
unfolding first_where
first_is_highest p [] v d f = tt
first_is_highest p (x ∷ vs) v d f = elim (Bool-cases (p x)) [
  | inl passes ↦
      let same : x ≡ v = some-injective (rw passes at f) in
      rw passes (
        omega (arith, same),
        All-keep_where (λ w. w ≤ v) p vs
            (All-map (λ w. w < x) (λ w. w ≤ v) vs (λ w h. omega (arith, h, same)) d.0),
      )
  | inr fails ↦ rw fails (first_is_highest p vs v d.1 (rw fails at f))
]

pub keep_where-none : (p : ℕ → Bool) (vs : List ℕ) → first_where p vs ≡ none → keep_where p vs ≡ []
unfolding first_where
keep_where-none p [] h = refl
keep_where-none p (x ∷ vs) h = ground (arith, keep_where-none p vs)

-- The versions that both sides support.
abbrev pub common_versions : Bool → Option Config → Option Config → List ℕ
common_versions debug client server =
    keep_where (λ v. contains v (supported_versions debug server false))
      (supported_versions debug client true)

-- The server takes the first version that the client offers and that it supports itself. Both
-- support it, it is the highest that both support, and the client, whom the server answers with
-- this one version, takes it too. Where the server finds none, no version is supported by both.
pub mutual_version_lem :
    (debug : Bool) (client server : Option Config)
    → ((v : ℕ) × (mutual_version debug server false (supported_versions debug client true)
          ≡ (v, true))
        × (mutual_version debug client true (v ∷ []) ≡ (v, true))
        × (contains v (supported_versions debug client true) ≡ true)
        × (contains v (supported_versions debug server false) ≡ true)
        × All (λ w. w ≤ v) (common_versions debug client server))
      ⊎ ((mutual_version debug server false (supported_versions debug client true) ≡ (0, false))
          × (common_versions debug client server ≡ []))
unfolding mutual_version first_where
mutual_version_lem debug client server = elim (Option-cases (first_where accepted offered)) [
  | inl gone ↦ inr (rw (mutual_version, gone) refl, keep_where-none accepted offered gone)
  | inr (v, found) ↦
      let first = first_where-some accepted offered found in
      let its_own : contains v offered ≡ true = IsFirst-contains first in
      inl (
        v,
        rw (mutual_version, found) refl,
        rw (mutual_version, first_where, its_own) refl,
        its_own,
        first.passes,
        first_is_highest accepted offered v (supported_versions-Descends debug client true) found,
      )
]
  where
    offered : List ℕ
    offered = supported_versions debug client true

    accepted : ℕ → Bool
    accepted v = contains v (supported_versions debug server false)

-- What was kept passes.
pub contains-keep_where :
    (p : ℕ → Bool) (vs : List ℕ) (v : ℕ) → contains v (keep_where p vs) ≡ true → p v ≡ true
unfolding contains
contains-keep_where p [] v h = absurd cc
contains-keep_where p (x ∷ vs) v h = elim (Bool-cases (p x)) [
  | inl kept ↦ by_place (Bool-cases (x == v)) kept (rw kept at h) (contains-keep_where p vs v)
  | inr left ↦ contains-keep_where p vs v (rw left at h)
]
  where
    by_place :
        ((x == v) ≡ true) ⊎ ((x == v) ≡ false)
        → p x ≡ true
        → (if x == v then true else contains v (keep_where p vs)) ≡ true
        → (contains v (keep_where p vs) ≡ true → p v ≡ true)
        → p v ≡ true
    by_place (inl here) kept h k = sym (ap p ((==_iff x v).0 here)) ∙ kept
    by_place (inr there) kept h k = k (rw there at h)

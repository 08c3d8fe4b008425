-- ===== src/Negotiate/Suites/Picked.antt =====
-- The cipher suite that the server picks, which the client takes.
use disguise.Common.{
  ℕ, ◌≡◌, refl, subst, sym, ap, ◌∙◌, inl, inr, Bool-cases, Option-cases, Bool, true, false, ◌&&◌,
  none, some, List, [], ◌∷◌, ◌==◌, ==_iff,
}
use disguise.Common.Choice.{contains, first_where, IsFirst, first_where-some, IsFirst-contains}
use disguise.Negotiate.{Config}
use disguise.Negotiate.Agreed.{contains-keep_where}
use disguise.Negotiate.Suites.{
  CipherSuite, id_of, cipher_suites, config_cipher_suites, find_suite, cipher_suite_by_id,
  mutual_cipher_suite, passes_filter, select_cipher_suite, ServerAbilities, cipher_suite_ok,
  preference_list, pick_suite,
}

-- The test of `selectCipherSuite` on an identifier.
abbrev pub is_taken : (CipherSuite → Bool) → List ℕ → ℕ → Bool
is_taken ok supported id = passes_filter ok id && contains id supported

pub and_true : (a b : Bool) → (a && b) ≡ true → (a ≡ true) × (b ≡ true)
and_true true b h = (refl, h)
and_true false b h = absurd cc

find_suite-id :
    (id : ℕ) (ss : List CipherSuite) {s : CipherSuite} → find_suite id ss ≡ some s → id_of s ≡ id
unfolding find_suite
find_suite-id id [] h = absurd cc
find_suite-id id (t ∷ ss) {s} h = elim (Bool-cases (id_of t == id)) [
  | inl here ↦
      let same : some t ≡ some s = rw here at h in
      ap id_of (sym (suite-injective same)) ∙ (==_iff (id_of t) id).0 here
  | inr there ↦ find_suite-id id ss (rw there at h)
]
  where
    suite-injective : some t ≡ some s → t ≡ s
    suite-injective e = cc

pub cipher_suite_by_id-id :
    (id : ℕ) {s : CipherSuite} → cipher_suite_by_id id ≡ some s → id_of s ≡ id
unfolding cipher_suite_by_id
cipher_suite_by_id-id id h = find_suite-id id cipher_suites h

-- Where the test holds, the identifier has a suite, which the filter lets pass.
pub passes_filter-suite :
    (ok : CipherSuite → Bool) (id : ℕ)
    → passes_filter ok id ≡ true
    → (s : CipherSuite) × (cipher_suite_by_id id ≡ some s) × (ok s ≡ true)
unfolding passes_filter
passes_filter-suite ok id h = elim (Option-cases (cipher_suite_by_id id)) [
  | inl gone ↦ absurd (not_true (rw (passes_filter, gone) at h))
  | inr (s, found) ↦ (s, found, rw (passes_filter, found) at h)
]
  where
    not_true : false ≡ true → ⊥
    not_true e = cc

-- The loop takes the suite of the first identifier that passes the test.
select_cipher_suite-first :
    (ids supported : List ℕ) (ok : CipherSuite → Bool)
    → select_cipher_suite ids supported ok ≡ elim (first_where (is_taken ok supported) ids) [
      | some id ↦ cipher_suite_by_id id
      | none ↦ none
    ]
unfolding select_cipher_suite first_where
select_cipher_suite-first [] supported ok = refl
select_cipher_suite-first (id ∷ ids) supported ok =
    elim (Bool-cases (passes_filter ok id && contains id supported)) [
      | inl taken ↦ rw taken refl
      | inr left ↦ rw left (select_cipher_suite-first ids supported ok)
    ]

-- Where the server picks no suite, no identifier of its order passes the test.
pub pick_suite-none :
    (hardware : Bool) (config : Config) (a : ServerAbilities) (offered : List ℕ)
    → pick_suite hardware config a offered ≡ none
    → first_where (is_taken (cipher_suite_ok a) offered) (preference_list hardware config offered)
      ≡ none
unfolding pick_suite
pick_suite-none hardware config a offered h = elim (Option-cases (first_where test prefs)) [
  | inl gone ↦ gone
  | inr (id, found) ↦
      let first = first_where-some test prefs found in
      let (passes, named) =
        and_true (passes_filter (cipher_suite_ok a) id) (contains id offered) first.passes in
      let (t, at, fine) = passes_filter-suite (cipher_suite_ok a) id passes in
      absurd (
        some-none {t = t}
          (sym (select_cipher_suite-first prefs offered (cipher_suite_ok a) ∙ rw found at) ∙ h))
]
  where
    test : ℕ → Bool
    test = is_taken (cipher_suite_ok a) offered

    prefs : List ℕ
    prefs = preference_list hardware config offered

    some-none : {t : CipherSuite} → some t ≡ none → ⊥
    some-none e = cc

-- Where a server picks a suite, it is the first in its order of preference, among those of the
-- configuration, that the client offers and that the certificate, the curves and the version
-- allow; and the client, which looks for its identifier among those that it offered, finds the
-- same suite.
pub pick_suite_lem :
    (hardware : Bool) (config : Config) (a : ServerAbilities) (offered : List ℕ) (s : CipherSuite)
    → pick_suite hardware config a offered ≡ some s
    → IsFirst
        (is_taken (cipher_suite_ok a) offered)
        (preference_list hardware config offered)
        (id_of s)
      × (contains (id_of s) (config_cipher_suites config) ≡ true)
      × (cipher_suite_ok a s ≡ true)
      × (mutual_cipher_suite offered (id_of s) ≡ some s)
unfolding pick_suite preference_list mutual_cipher_suite
pick_suite_lem hardware config a offered s h = elim (Option-cases (first_where test prefs)) [
  | inl gone ↦ absurd (
      none-some
        (sym (select_cipher_suite-first prefs offered (cipher_suite_ok a) ∙ rw gone refl) ∙ h))
  | inr (id, found) ↦
      let first = first_where-some test prefs found in
      let (passes, named) =
        and_true (passes_filter (cipher_suite_ok a) id) (contains id offered) first.passes in
      let (t, at, fine) = passes_filter-suite (cipher_suite_ok a) id passes in
      let taken : some t ≡ some s =
        sym (select_cipher_suite-first prefs offered (cipher_suite_ok a) ∙ rw found at) ∙ h in
      let same : t ≡ s = suite-injective t taken in
      let key : id ≡ id_of s = sym (cipher_suite_by_id-id id at) ∙ ap id_of same in
      subst
        (λ k.
          IsFirst test prefs k
          × (contains k (config_cipher_suites config) ≡ true)
          × (cipher_suite_ok a s ≡ true)
          × (mutual_cipher_suite offered k ≡ some s))
        key
        (
          first,
          contains-keep_where (λ i. contains i (config_cipher_suites config)) _ id
              (IsFirst-contains first),
          ap (cipher_suite_ok a) (sym same) ∙ fine,
          rw (mutual_cipher_suite, named) (at ∙ taken),
        )
]
  where
    test : ℕ → Bool
    test = is_taken (cipher_suite_ok a) offered

    prefs : List ℕ
    prefs = preference_list hardware config offered

    none-some : none ≡ some s → ⊥
    none-some e = cc

    suite-injective : (t : CipherSuite) → some t ≡ some s → t ≡ s
    suite-injective t e = cc

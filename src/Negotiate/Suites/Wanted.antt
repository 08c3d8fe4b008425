-- ===== src/Negotiate/Suites/Wanted.antt =====
-- What a cipher suite asks of a server, by its key agreement and its MAC, and the order that the server goes by.
use disguise.Common.{
  ℕ, ◌≡◌, refl, inl, inr, Bool-cases, Option-cases, Bool, true, false, not, ◌&&◌, ◌||◌, none, some,
  List, [], ◌∷◌, All, leb, ltb, ◌==◌, if◌then◌else◌, arith,
}
use disguise.Common.Choice.{contains, first_where}
use disguise.Negotiate.{Config}
use disguise.Negotiate.Suites.{
  AgreementId, ecdhe_rsa, ecdhe_ecdsa, rsa_ka, mac_sha1, CipherSuite, suite, id_of, has_flag,
  suite_ecdhe, suite_ec_sign, suite_tls12, cipher_suites, cipher_suites_preference_order,
  cipher_suites_preference_order_no_aes, aesgcm_ciphers, cipher_suites_tls13, config_cipher_suites,
  find_suite, cipher_suite_by_id, mutual_cipher_suite, passes_filter, aesgcm_preferred,
  ServerAbilities, cipher_suite_ok, preference_list,
}
use disguise.Negotiate.Suites.Picked.{is_taken}
use disguise.Negotiate.Versions.{keep_where}

-- The key agreement of a suite, and whether its record protection came with TLS 1.2: only the suites with SHA-1
-- are older.
abbrev agreement_of : CipherSuite → AgreementId
agreement_of (suite id key mac iv ka flags cipher mac_id) = ka

abbrev is_late : CipherSuite → Bool
is_late (suite id key mac iv ka flags cipher mac_sha1) = false
is_late (suite id key mac iv ka flags cipher mac_id) = true

-- What the server's keys and the curves must allow for a key agreement.
abbrev agrees : ServerAbilities → AgreementId → Bool
agrees a ecdhe_rsa = a.ecdhe_ok && a.rsa_sign_ok
agrees a ecdhe_ecdsa = a.ecdhe_ok && a.ec_sign_ok
agrees a rsa_ka = a.rsa_decrypt_ok

-- The server can use the suite: its keys agree, and the version is TLS 1.2 at least where the suite came with it.
abbrev pub fits : ServerAbilities → CipherSuite → Bool
fits a s = agrees a (agreement_of s) && (not (is_late s) || leb 0x0303 a.version)

-- The flags that a key agreement has.
abbrev has_ecdhe : AgreementId → Bool
has_ecdhe rsa_ka = false
has_ecdhe ka = true

abbrev has_ec_sign : AgreementId → Bool
has_ec_sign ecdhe_ecdsa = true
has_ec_sign ka = false

abbrev IsFlagged : CipherSuite → Type 0
IsFlagged s =
    (has_flag suite_ecdhe s ≡ has_ecdhe (agreement_of s))
    × (has_flag suite_ec_sign s ≡ has_ec_sign (agreement_of s))
    × (has_flag suite_tls12 s ≡ is_late s)

-- The table's flags are those of the key agreement and the MAC.
cipher_suites-IsFlagged : All IsFlagged cipher_suites
cipher_suites-IsFlagged = ground arith

find_suite-All :
    (P : CipherSuite → Type 0) (id : ℕ) (ss : List CipherSuite) (s : CipherSuite)
    → All P ss
    → find_suite id ss ≡ some s
    → P s
unfolding find_suite
find_suite-All P id [] s all h = absurd cc
find_suite-All P id (t ∷ ss) s all h = elim (Bool-cases (id_of t == id)) [
  | inl here ↦ let same : some t ≡ some s = rw here at h in rw (suite-injective same) at (all.0)
  | inr there ↦ find_suite-All P id ss s all.1 (rw there at h)
]
  where
    suite-injective : some t ≡ some s → t ≡ s
    suite-injective e = cc

-- On the suites of the table the code's test is `fits`.
cipher_suite_ok-fits :
    (a : ServerAbilities) (s : CipherSuite) → IsFlagged s → cipher_suite_ok a s ≡ fits a s
unfolding cipher_suite_ok
cipher_suite_ok-fits a s (e, g, t) = rw (cipher_suite_ok, e, g, t) (by_agreement (agreement_of s))
  where
    by_agreement :
        (ka : AgreementId)
        → (let late = if ltb a.version 0x0303 && is_late s then false else true in
            if has_ecdhe ka
            then (if not a.ecdhe_ok
                then false
                else if has_ec_sign ka
                then (if not a.ec_sign_ok then false else late)
                else if not a.rsa_sign_ok
                then false
                else late)
            else if not a.rsa_decrypt_ok
            then false
            else late)
          ≡ (agrees a ka && (not (is_late s) || leb 0x0303 a.version))
    by_agreement ecdhe_rsa = ground arith
    by_agreement ecdhe_ecdsa = ground arith
    by_agreement rsa_ka = ground arith

passes_filter-fits :
    (a : ServerAbilities) (id : ℕ)
    → passes_filter (cipher_suite_ok a) id ≡ passes_filter (fits a) id
unfolding passes_filter cipher_suite_by_id
passes_filter-fits a id = elim (Option-cases (cipher_suite_by_id id)) [
  | inl gone ↦ rw (passes_filter, gone) refl
  | inr (s, found) ↦
      rw (passes_filter, found)
        (cipher_suite_ok-fits a s
          (find_suite-All IsFlagged id cipher_suites s cipher_suites-IsFlagged found))
]

-- What the client finds is of the table.
pub mutual_cipher_suite-fits :
    (a : ServerAbilities) (offered : List ℕ) (id : ℕ) (s : CipherSuite)
    → mutual_cipher_suite offered id ≡ some s
    → cipher_suite_ok a s ≡ fits a s
unfolding mutual_cipher_suite cipher_suite_by_id
mutual_cipher_suite-fits a offered id s h = elim (Bool-cases (contains id offered)) [
  | inr left ↦ absurd (none-some (rw (mutual_cipher_suite, left) at h))
  | inl there ↦ cipher_suite_ok-fits a s (
      find_suite-All IsFlagged id cipher_suites s cipher_suites-IsFlagged
        (rw (mutual_cipher_suite, there) at h))
]
  where
    none-some : none ≡ some s → ⊥
    none-some e = cc

-- The server's test of an identifier, as `fits` has it.
pub is_taken-fits :
    (a : ServerAbilities) (offered : List ℕ)
    → is_taken (cipher_suite_ok a) offered ≡ is_taken (fits a) offered
is_taken-fits a offered i id = passes_filter-fits a id i && contains id offered

-- The first suite of the client's that is known is AES-GCM.
abbrev is_known : ℕ → Bool
is_known id = elim (cipher_suite_by_id id) [
  | some s ↦ true
  | none ↦ contains id cipher_suites_tls13
]

abbrev prefers_aes : List ℕ → Bool
prefers_aes offered = elim (first_where is_known offered) [
  | none ↦ false
  | some id ↦ contains id aesgcm_ciphers
]

-- The server's order: AES first only where both sides are for it, and of the configuration alone.
abbrev pub server_order : Bool → Config → List ℕ → List ℕ
server_order hardware config offered =
    keep_where (λ id. contains id (config_cipher_suites config))
      (if hardware && prefers_aes offered
        then cipher_suites_preference_order
        else cipher_suites_preference_order_no_aes)

aesgcm_preferred-prefers_aes : (offered : List ℕ) → aesgcm_preferred offered ≡ prefers_aes offered
unfolding aesgcm_preferred first_where
aesgcm_preferred-prefers_aes [] = refl
aesgcm_preferred-prefers_aes (id ∷ ids) = elim (Option-cases (cipher_suite_by_id id)) [
  | inr (s, found) ↦ rw (aesgcm_preferred, found, prefers_aes, is_known) refl
  | inl gone ↦ elim (Bool-cases (contains id cipher_suites_tls13)) [
    | inl later ↦ rw (aesgcm_preferred, gone, later, prefers_aes, is_known) refl
    | inr unknown ↦
        rw (aesgcm_preferred, gone, unknown, prefers_aes, is_known)
          (aesgcm_preferred-prefers_aes ids)
  ]
]

pub preference_list-server_order :
    (hardware : Bool) (config : Config) (offered : List ℕ)
    → preference_list hardware config offered ≡ server_order hardware config offered
unfolding preference_list
preference_list-server_order hardware config offered =
    rw (preference_list, aesgcm_preferred-prefers_aes offered)
      (by_choice hardware (prefers_aes offered))
  where
    by_choice :
        (b p : Bool)
        → keep_where
            (λ id. contains id (config_cipher_suites config))
            (if not b || not p
              then cipher_suites_preference_order_no_aes
              else cipher_suites_preference_order)
          ≡ keep_where
              (λ id. contains id (config_cipher_suites config))
              (if b && p
                then cipher_suites_preference_order
                else cipher_suites_preference_order_no_aes)
    by_choice true true = refl
    by_choice true false = refl
    by_choice false p = refl

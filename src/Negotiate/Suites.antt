-- ===== src/Negotiate/Suites.antt =====
-- cipher_suites.go: the cipher suites and the choice of one of them.
pub mod Picked
pub mod Server
pub mod Wanted
use disguise.Common.{
  ℕ, ◌≡◌, Bool, true, false, not, ◌&&◌, ◌||◌, Option, none, some, List, [], ◌∷◌, length, take, ◌-◌,
  leb, ltb, ◌==◌, if◌then◌else◌,
}
use disguise.Common.Choice.{contains, first_where}
use disguise.Negotiate.{Config}
use disguise.Negotiate.SuiteIds.{
  tls_aes_128_gcm_sha256, tls_aes_256_gcm_sha384, tls_chacha20_poly1305_sha256,
  tls_ecdhe_ecdsa_with_aes_128_cbc_sha, tls_ecdhe_ecdsa_with_aes_128_cbc_sha256,
  tls_ecdhe_ecdsa_with_aes_128_gcm_sha256, tls_ecdhe_ecdsa_with_aes_256_cbc_sha,
  tls_ecdhe_ecdsa_with_aes_256_gcm_sha384, tls_ecdhe_ecdsa_with_chacha20_poly1305_sha256,
  tls_ecdhe_ecdsa_with_rc4_128_sha, tls_ecdhe_rsa_with_3des_ede_cbc_sha,
  tls_ecdhe_rsa_with_aes_128_cbc_sha, tls_ecdhe_rsa_with_aes_128_cbc_sha256,
  tls_ecdhe_rsa_with_aes_128_gcm_sha256, tls_ecdhe_rsa_with_aes_256_cbc_sha,
  tls_ecdhe_rsa_with_aes_256_gcm_sha384, tls_ecdhe_rsa_with_chacha20_poly1305_sha256,
  tls_ecdhe_rsa_with_rc4_128_sha, tls_fallback_scsv, tls_rsa_with_3des_ede_cbc_sha,
  tls_rsa_with_aes_128_cbc_sha, tls_rsa_with_aes_128_cbc_sha256, tls_rsa_with_aes_128_gcm_sha256,
  tls_rsa_with_aes_256_cbc_sha, tls_rsa_with_aes_256_gcm_sha384, tls_rsa_with_rc4_128_sha,
}
use disguise.Negotiate.Versions.{keep_where}
use Prim.Native.Nat.{bit_and}

-- The functions that the table names: for the key agreement, the cipher or AEAD, and the MAC.
pub data AgreementId : Type 0 where
  ecdhe_rsa ecdhe_ecdsa rsa_ka : AgreementId

pub data CipherId : Type 0 where
  aead_aes_gcm aead_chacha20_poly1305 cbc_aes cbc_3des stream_rc4 : CipherId

pub data MacId : Type 0 where
  mac_sha1 mac_sha256 no_mac : MacId

-- The bits of `flags`.
abbrev pub suite_ecdhe : ℕ
suite_ecdhe = 1

abbrev pub suite_ec_sign : ℕ
suite_ec_sign = 2

abbrev pub suite_tls12 : ℕ
suite_tls12 = 4

abbrev pub suite_sha384 : ℕ
suite_sha384 = 8

-- `cipherSuite`: id, keyLen, macLen, ivLen, ka, flags, cipher or aead, and mac.
pub data CipherSuite : Type 0 where
  suite : ℕ → ℕ → ℕ → ℕ → AgreementId → ℕ → CipherId → MacId → CipherSuite

abbrev pub id_of : CipherSuite → ℕ
id_of (suite id key mac iv ka flags cipher mac_id) = id

abbrev pub flags_of : CipherSuite → ℕ
flags_of (suite id key mac iv ka flags cipher mac_id) = flags

-- `flags&bit != 0`.
abbrev pub has_flag : ℕ → CipherSuite → Bool
has_flag bit s = not (bit_and (flags_of s) bit == 0)

abbrev pub cipher_suites : List CipherSuite
cipher_suites =
    suite tls_ecdhe_rsa_with_chacha20_poly1305_sha256 32 0 12 ecdhe_rsa 5 aead_chacha20_poly1305
      no_mac
    ∷ suite tls_ecdhe_ecdsa_with_chacha20_poly1305_sha256 32 0 12 ecdhe_ecdsa 7
        aead_chacha20_poly1305 no_mac
    ∷ suite tls_ecdhe_rsa_with_aes_128_gcm_sha256 16 0 4 ecdhe_rsa 5 aead_aes_gcm no_mac
    ∷ suite tls_ecdhe_ecdsa_with_aes_128_gcm_sha256 16 0 4 ecdhe_ecdsa 7 aead_aes_gcm no_mac
    ∷ suite tls_ecdhe_rsa_with_aes_256_gcm_sha384 32 0 4 ecdhe_rsa 13 aead_aes_gcm no_mac
    ∷ suite tls_ecdhe_ecdsa_with_aes_256_gcm_sha384 32 0 4 ecdhe_ecdsa 15 aead_aes_gcm no_mac
    ∷ suite tls_ecdhe_rsa_with_aes_128_cbc_sha256 16 32 16 ecdhe_rsa 5 cbc_aes mac_sha256
    ∷ suite tls_ecdhe_rsa_with_aes_128_cbc_sha 16 20 16 ecdhe_rsa 1 cbc_aes mac_sha1
    ∷ suite tls_ecdhe_ecdsa_with_aes_128_cbc_sha256 16 32 16 ecdhe_ecdsa 7 cbc_aes mac_sha256
    ∷ suite tls_ecdhe_ecdsa_with_aes_128_cbc_sha 16 20 16 ecdhe_ecdsa 3 cbc_aes mac_sha1
    ∷ suite tls_ecdhe_rsa_with_aes_256_cbc_sha 32 20 16 ecdhe_rsa 1 cbc_aes mac_sha1
    ∷ suite tls_ecdhe_ecdsa_with_aes_256_cbc_sha 32 20 16 ecdhe_ecdsa 3 cbc_aes mac_sha1
    ∷ suite tls_rsa_with_aes_128_gcm_sha256 16 0 4 rsa_ka 4 aead_aes_gcm no_mac
    ∷ suite tls_rsa_with_aes_256_gcm_sha384 32 0 4 rsa_ka 12 aead_aes_gcm no_mac
    ∷ suite tls_rsa_with_aes_128_cbc_sha256 16 32 16 rsa_ka 4 cbc_aes mac_sha256
    ∷ suite tls_rsa_with_aes_128_cbc_sha 16 20 16 rsa_ka 0 cbc_aes mac_sha1
    ∷ suite tls_rsa_with_aes_256_cbc_sha 32 20 16 rsa_ka 0 cbc_aes mac_sha1
    ∷ suite tls_ecdhe_rsa_with_3des_ede_cbc_sha 24 20 8 ecdhe_rsa 1 cbc_3des mac_sha1
    ∷ suite tls_rsa_with_3des_ede_cbc_sha 24 20 8 rsa_ka 0 cbc_3des mac_sha1
    ∷ suite tls_rsa_with_rc4_128_sha 16 20 0 rsa_ka 0 stream_rc4 mac_sha1
    ∷ suite tls_ecdhe_rsa_with_rc4_128_sha 16 20 0 ecdhe_rsa 1 stream_rc4 mac_sha1
    ∷ suite tls_ecdhe_ecdsa_with_rc4_128_sha 16 20 0 ecdhe_ecdsa 3 stream_rc4 mac_sha1
    ∷ []

abbrev pub cipher_suites_preference_order : List ℕ
cipher_suites_preference_order =
    tls_ecdhe_ecdsa_with_aes_128_gcm_sha256 ∷ tls_ecdhe_rsa_with_aes_128_gcm_sha256
    ∷ tls_ecdhe_ecdsa_with_aes_256_gcm_sha384 ∷ tls_ecdhe_rsa_with_aes_256_gcm_sha384
    ∷ tls_ecdhe_ecdsa_with_chacha20_poly1305_sha256 ∷ tls_ecdhe_rsa_with_chacha20_poly1305_sha256
    ∷ tls_ecdhe_ecdsa_with_aes_128_cbc_sha ∷ tls_ecdhe_rsa_with_aes_128_cbc_sha
    ∷ tls_ecdhe_ecdsa_with_aes_256_cbc_sha ∷ tls_ecdhe_rsa_with_aes_256_cbc_sha
    ∷ tls_rsa_with_aes_128_gcm_sha256 ∷ tls_rsa_with_aes_256_gcm_sha384
    ∷ tls_rsa_with_aes_128_cbc_sha ∷ tls_rsa_with_aes_256_cbc_sha
    ∷ tls_ecdhe_rsa_with_3des_ede_cbc_sha ∷ tls_rsa_with_3des_ede_cbc_sha
    ∷ tls_ecdhe_ecdsa_with_aes_128_cbc_sha256 ∷ tls_ecdhe_rsa_with_aes_128_cbc_sha256
    ∷ tls_rsa_with_aes_128_cbc_sha256 ∷ tls_ecdhe_ecdsa_with_rc4_128_sha
    ∷ tls_ecdhe_rsa_with_rc4_128_sha ∷ tls_rsa_with_rc4_128_sha ∷ []

abbrev pub cipher_suites_preference_order_no_aes : List ℕ
cipher_suites_preference_order_no_aes =
    tls_ecdhe_ecdsa_with_chacha20_poly1305_sha256 ∷ tls_ecdhe_rsa_with_chacha20_poly1305_sha256
    ∷ tls_ecdhe_ecdsa_with_aes_128_gcm_sha256 ∷ tls_ecdhe_rsa_with_aes_128_gcm_sha256
    ∷ tls_ecdhe_ecdsa_with_aes_256_gcm_sha384 ∷ tls_ecdhe_rsa_with_aes_256_gcm_sha384
    ∷ tls_ecdhe_ecdsa_with_aes_128_cbc_sha ∷ tls_ecdhe_rsa_with_aes_128_cbc_sha
    ∷ tls_ecdhe_ecdsa_with_aes_256_cbc_sha ∷ tls_ecdhe_rsa_with_aes_256_cbc_sha
    ∷ tls_rsa_with_aes_128_gcm_sha256 ∷ tls_rsa_with_aes_256_gcm_sha384
    ∷ tls_rsa_with_aes_128_cbc_sha ∷ tls_rsa_with_aes_256_cbc_sha
    ∷ tls_ecdhe_rsa_with_3des_ede_cbc_sha ∷ tls_rsa_with_3des_ede_cbc_sha
    ∷ tls_ecdhe_ecdsa_with_aes_128_cbc_sha256 ∷ tls_ecdhe_rsa_with_aes_128_cbc_sha256
    ∷ tls_rsa_with_aes_128_cbc_sha256 ∷ tls_ecdhe_ecdsa_with_rc4_128_sha
    ∷ tls_ecdhe_rsa_with_rc4_128_sha ∷ tls_rsa_with_rc4_128_sha ∷ []

abbrev pub disabled_cipher_suites : List ℕ
disabled_cipher_suites =
    tls_ecdhe_ecdsa_with_aes_128_cbc_sha256 ∷ tls_ecdhe_rsa_with_aes_128_cbc_sha256
    ∷ tls_rsa_with_aes_128_cbc_sha256 ∷ tls_ecdhe_ecdsa_with_rc4_128_sha
    ∷ tls_ecdhe_rsa_with_rc4_128_sha ∷ tls_rsa_with_rc4_128_sha ∷ []

abbrev pub aesgcm_ciphers : List ℕ
aesgcm_ciphers =
    tls_ecdhe_rsa_with_aes_128_gcm_sha256 ∷ tls_ecdhe_rsa_with_aes_256_gcm_sha384
    ∷ tls_ecdhe_ecdsa_with_aes_128_gcm_sha256 ∷ tls_ecdhe_ecdsa_with_aes_256_gcm_sha384
    ∷ tls_aes_128_gcm_sha256 ∷ tls_aes_256_gcm_sha384 ∷ []

abbrev pub cipher_suites_tls13 : List ℕ
cipher_suites_tls13 =
    tls_aes_128_gcm_sha256 ∷ tls_chacha20_poly1305_sha256 ∷ tls_aes_256_gcm_sha384 ∷ []

abbrev pub default_cipher_suites : List ℕ
default_cipher_suites =
    take (length cipher_suites_preference_order - length disabled_cipher_suites)
      cipher_suites_preference_order

-- `Config.cipherSuites`.
unfoldable pub config_cipher_suites : Config → List ℕ
config_cipher_suites c = elim c.cipher_suites [ none ↦ default_cipher_suites | some ids ↦ ids ]

unfoldable pub find_suite : ℕ → List CipherSuite → Option CipherSuite
find_suite id [] = none
find_suite id (s ∷ ss) = let rest = find_suite id ss in if id_of s == id then some s else rest

unfoldable pub cipher_suite_by_id : ℕ → Option CipherSuite
cipher_suite_by_id id = find_suite id cipher_suites

unfoldable pub mutual_cipher_suite : List ℕ → ℕ → Option CipherSuite
mutual_cipher_suite have want = if contains want have then cipher_suite_by_id want else none

-- `mutualCipherSuiteTLS13`, with the id of the suite; its table is searched by id alone.
unfoldable pub mutual_cipher_suite_tls13 : List ℕ → ℕ → Option ℕ
mutual_cipher_suite_tls13 have want =
    if contains want have && contains want cipher_suites_tls13 then some want else none

-- `candidate == nil || !ok(candidate)`, negated.
unfoldable pub passes_filter : (CipherSuite → Bool) → ℕ → Bool
passes_filter ok id = elim (cipher_suite_by_id id) [ none ↦ false | some s ↦ ok s ]

unfoldable pub select_cipher_suite : List ℕ → List ℕ → (CipherSuite → Bool) → Option CipherSuite
select_cipher_suite [] supported ok = none
select_cipher_suite (id ∷ ids) supported ok =
    let rest = select_cipher_suite ids supported ok in
    if passes_filter ok id && contains id supported then cipher_suite_by_id id else rest

unfoldable pub aesgcm_preferred : List ℕ → Bool
aesgcm_preferred [] = false
aesgcm_preferred (id ∷ ids) =
    let rest = aesgcm_preferred ids in
    elim (cipher_suite_by_id id) [
      | some s ↦ contains id aesgcm_ciphers
      | none ↦ if contains id cipher_suites_tls13 then contains id aesgcm_ciphers else rest
    ]

-- What `serverHandshakeState.cipherSuiteOk` reads.
pub record ServerAbilities : Type 0 where
  pub version : ℕ
  pub ecdhe_ok : Bool
  pub ec_sign_ok : Bool
  pub rsa_decrypt_ok : Bool
  pub rsa_sign_ok : Bool

-- `cipherSuiteOk`.
unfoldable pub cipher_suite_ok : ServerAbilities → CipherSuite → Bool
cipher_suite_ok a c =
    let late = if ltb a.version 0x0303 && has_flag suite_tls12 c then false else true in
    if has_flag suite_ecdhe c
    then (if not a.ecdhe_ok
        then false
        else if has_flag suite_ec_sign c
        then (if not a.ec_sign_ok then false else late)
        else if not a.rsa_sign_ok
        then false
        else late)
    else if not a.rsa_decrypt_ok
    then false
    else late

-- `preferenceList` of `serverHandshakeState.pickCipherSuite`; `hardware` is `hasAESGCMHardwareSupport`.
unfoldable pub preference_list : Bool → Config → List ℕ → List ℕ
preference_list hardware config offered =
    keep_where (λ id. contains id (config_cipher_suites config))
      (if not hardware || not (aesgcm_preferred offered)
        then cipher_suites_preference_order_no_aes
        else cipher_suites_preference_order)

-- The suite that `serverHandshakeState.pickCipherSuite` takes.
unfoldable pub pick_suite : Bool → Config → ServerAbilities → List ℕ → Option CipherSuite
pick_suite hardware config a offered =
    select_cipher_suite (preference_list hardware config offered) offered (cipher_suite_ok a)

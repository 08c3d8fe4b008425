-- ===== src/Negotiate/Tests.antt =====
-- The choices at concrete inputs.
use disguise.Common.{
  ℕ, ◌≤◌, ◌<◌, ◌≡◌, refl, ok, Gives, no_mutual_suite, bad_fallback, replicate, ◌++◌, length, ap,
  sym, ◌∙◌, length-replicate, arith, none, some, List, [], ◌∷◌, true, false, All, ◌⊎◌,
}
use disguise.Common.Choice.{contains, first_where, IsFirst}
use disguise.Common.Texts.{same_list, has_text}
use disguise.Negotiate.{Config}
use disguise.Negotiate.Versions.{supported_versions, mutual_version, max_supported_version}
use disguise.Negotiate.Agreed.{common_versions, mutual_version_lem}
use disguise.Negotiate.Alpn.{h2, http11, negotiate_alpn, check_alpn}
use disguise.Negotiate.Alpn.Chosen.{chosen, negotiate_alpn_lem}
use disguise.Negotiate.Client.{
  ServerHello, downgrade_canary_tls12, server_random, peer_version, agree_version,
}
use disguise.Negotiate.Client.Downgrade.{IsRefusal, agree_version_lem}
use disguise.Negotiate.Client.Hello.{
  ClientHello, Session, ClientState, restored, process_server_hello, check_hello, take_suite,
  check_compression, first_renegotiation, later_renegotiation, take_alpn, server_resumed_session,
  resume_session,
}
use disguise.Negotiate.Client.Hello.Stages.{taken}
use disguise.Negotiate.Schemes.{
  rsa_key, key_schemes, filtered, signature_schemes_for_certificate, peer_schemes,
  select_signature_scheme, pss_with_sha256, pkcs1_with_sha256, ecdsa_with_sha1,
}
use disguise.Negotiate.Schemes.Selected.{IsSuitable, select_signature_scheme_lem}
use disguise.Negotiate.SuiteIds.{
  tls_rsa_with_aes_128_cbc_sha, tls_ecdhe_rsa_with_aes_128_gcm_sha256, tls_fallback_scsv,
}
use disguise.Negotiate.Suites.{
  CipherSuite, select_cipher_suite, passes_filter, cipher_suite_by_id, find_suite, aesgcm_preferred,
  suite, id_of, mutual_cipher_suite, ecdhe_rsa, aead_aes_gcm, no_mac, config_cipher_suites,
  ServerAbilities, cipher_suite_ok, preference_list, pick_suite,
}
use disguise.Negotiate.Suites.Picked.{is_taken}
use disguise.Negotiate.Suites.Server.{
  IsPick, IsRefused, is_fallback, pick_cipher_suite, pick_cipher_suite_lem,
}
use disguise.Negotiate.Suites.Wanted.{fits, server_order}
use disguise.Conn.Toy.{shaking}
use disguise.Record.Toy.{toy}

abbrev up_to_tls12 : Config
up_to_tls12 = record {
  min_version = 0;
  max_version = 0x0303;
  cipher_suites = none;
  curve_preferences = [];
}

mutual_version_lem_example :
    ((v : ℕ) × (mutual_version false (some up_to_tls12) false (supported_versions false none true)
        ≡ (v, true))
      × (mutual_version false none true (v ∷ []) ≡ (v, true))
      × (contains v (supported_versions false none true) ≡ true)
      × (contains v (supported_versions false (some up_to_tls12) false) ≡ true)
      × All (λ w. w ≤ v) (common_versions false none (some up_to_tls12)))
    ⊎ ((mutual_version false (some up_to_tls12) false (supported_versions false none true)
          ≡ (0, false))
        × (common_versions false none (some up_to_tls12) ≡ []))
mutual_version_lem_example = mutual_version_lem false none (some up_to_tls12)

mutual_version-tls12 :
    mutual_version false (some up_to_tls12) false (supported_versions false none true)
    ≡ (0x0303, true)
unfolding mutual_version supported_versions contains first_where
mutual_version-tls12 = refl

negotiate_alpn_lem_example :
    negotiate_alpn (h2 ∷ []) (http11 ∷ []) ≡ chosen false (h2 ∷ []) (http11 ∷ [])
negotiate_alpn_lem_example = negotiate_alpn_lem h2 http11 [] []

select_signature_scheme_lem_example :
    IsFirst
      (λ a. contains a (
        signature_schemes_for_certificate 0x0304
          (record { public_key = some (rsa_key 256); supported_signature_algorithms = none })))
      (peer_schemes 0x0304 (ecdsa_with_sha1 ∷ pkcs1_with_sha256 ∷ pss_with_sha256 ∷ []))
      pss_with_sha256
    × IsSuitable 0x0304 (rsa_key 256) pss_with_sha256
unfolding select_signature_scheme signature_schemes_for_certificate key_schemes filtered
    peer_schemes contains first_where
select_signature_scheme_lem_example =
    select_signature_scheme_lem 0x0304 (rsa_key 256) none
      (ecdsa_with_sha1 ∷ pkcs1_with_sha256 ∷ pss_with_sha256 ∷ []) pss_with_sha256 refl

abbrev rsa_server : ServerAbilities
rsa_server = record {
  version = 0x0303;
  ecdhe_ok = true;
  ec_sign_ok = false;
  rsa_decrypt_ok = true;
  rsa_sign_ok = true;
}

abbrev aes_gcm : CipherSuite
aes_gcm = suite tls_ecdhe_rsa_with_aes_128_gcm_sha256 16 0 4 ecdhe_rsa 5 aead_aes_gcm no_mac

abbrev both_suites : List ℕ
both_suites = tls_rsa_with_aes_128_cbc_sha ∷ tls_ecdhe_rsa_with_aes_128_gcm_sha256 ∷ []

pick_cipher_suite_lem_example :
    ((s : CipherSuite) × IsPick true up_to_tls12 rsa_server both_suites s
      × ((((contains tls_fallback_scsv both_suites ≡ false)
              ⊎ (max_supported_version false (some up_to_tls12) false ≤ 0x0303))
            × (pick_cipher_suite false true up_to_tls12 rsa_server 0x0303 both_suites 0 shaking
                ≡ ok (shaking, id_of s, some s, none)))
          ⊎ ((contains tls_fallback_scsv both_suites ≡ true)
              × (0x0303 < max_supported_version false (some up_to_tls12) false)
              × Gives (IsRefused bad_fallback (some s) (id_of s)) (
                  pick_cipher_suite false true up_to_tls12 rsa_server 0x0303 both_suites 0
                    shaking))))
    ⊎ ((first_where
            (is_taken (fits rsa_server) both_suites)
            (server_order true up_to_tls12 both_suites)
          ≡ none)
        × Gives
            (IsRefused no_mutual_suite none 0)
            (pick_cipher_suite false true up_to_tls12 rsa_server 0x0303 both_suites 0 shaking))
pick_cipher_suite_lem_example =
    pick_cipher_suite_lem false true up_to_tls12 rsa_server 0x0303 both_suites 0 shaking

-- The server takes the second of the client's suites.
picked :
    pick_cipher_suite false true up_to_tls12 rsa_server 0x0303 both_suites 0 shaking
    ≡ ok (shaking, tls_ecdhe_rsa_with_aes_128_gcm_sha256, some aes_gcm, none)
unfolding pick_cipher_suite pick_suite preference_list select_cipher_suite passes_filter
    cipher_suite_by_id find_suite aesgcm_preferred config_cipher_suites cipher_suite_ok contains
    is_fallback
picked = refl

abbrev any_version : Config
any_version = record {
  min_version = 0;
  max_version = 0;
  cipher_suites = none;
  curve_preferences = [];
}

-- An answer of TLS 1.2, to a client of TLS 1.3 whose offer was cut down.
abbrev lowered : ServerHello
lowered = record {
  vers = 0x0303;
  random = replicate 24 7 ++ downgrade_canary_tls12;
  session_id = 5 ∷ [];
  cipher_suite = tls_ecdhe_rsa_with_aes_128_gcm_sha256;
  compression_method = 0;
  secure_renegotiation_supported = true;
  secure_renegotiation = [];
  alpn_protocol = h2;
  scts = [];
  supported_version = 0;
}

agree_version_lem_example : Gives IsRefusal (agree_version false any_version lowered shaking)
unfolding supported_versions max_supported_version contains server_random peer_version
agree_version_lem_example =
    agree_version_lem false false false any_version any_version 0x0303 0x0304
      (λ n. some (replicate n 7)) lowered shaking refl refl (omega arith) (omega arith)
      (λ n r e. ap length (sym (some-list-injective e)) ∙ length-replicate n 7) refl refl
  where
    some-list-injective : {a b : List ℕ} → some a ≡ some b → a ≡ b
    some-list-injective e = cc

abbrev session : Session ℕ
session = record {
  vers = 771;
  cipher_suite = tls_ecdhe_rsa_with_aes_128_gcm_sha256;
  master_secret = 9 ∷ 9 ∷ [];
  server_certificates = 1 ∷ [];
  verified_chains = [];
  ocsp_response = [];
  scts = [];
}

abbrev client_hello : ClientHello
client_hello = record {
  session_id = some (5 ∷ []);
  cipher_suites = both_suites;
  alpn_protocols = http11 ∷ h2 ∷ [];
}

abbrev greeted : ClientState ℕ
greeted = record {
  conn = shaking;
  handshakes = 0;
  secure_renegotiation = false;
  client_finished = replicate 12 0;
  server_finished = replicate 12 0;
  client_protocol = [];
  scts = [];
  peer_certificates = [];
  verified_chains = [];
  ocsp_response = [];
  cipher_suite = 0;
  suite = none;
  master_secret = [];
}

resumed :
    process_server_hello client_hello lowered (some session) greeted
    ≡ ok (restored session (taken aes_gcm lowered greeted), true, none)
unfolding process_server_hello check_hello take_suite mutual_cipher_suite cipher_suite_by_id
    find_suite contains check_compression first_renegotiation later_renegotiation take_alpn
    check_alpn has_text same_list server_resumed_session resume_session taken
resumed = refl

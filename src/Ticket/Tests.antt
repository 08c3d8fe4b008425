-- ===== src/Ticket/Tests.antt =====
-- Session tickets at concrete inputs, with a cipher that swaps bytes and a MAC that counts them.
use disguise.Common.{inl, inr}
use disguise.Common.{
  ℕ, ◌-◌, ◌≡◌, Bool, refl, none, some, List, [], ◌∷◌, ◌++◌, ok, blocked, true, false, not, length,
  take, drop, replicate, length-replicate, ltb, arith,
}
use disguise.Common.Texts.{same_list}
use disguise.Ticket.{
  TicketKey, TicketCrypto, ticket_key_from_bytes, encrypt_ticket, find_key, decrypt_ticket_with,
  decrypt_ticket,
}
use disguise.Ticket.Sealed.{IsSound}
use disguise.Ticket.Opened.{decrypt_ticket-encrypt_ticket}
use disguise.Ticket.Rotation.{
  TicketConfig, deprecated_session_ticket_key, ticket_keys, set_session_ticket_keys,
}
use disguise.Ticket.Rotation.Kept.{
  automatic, IsMarking, IsRotation, ticket_keys_lem, ticket_keys_disabled, decrypt_ticket-rotated,
}
use disguise.Common.Choice.{contains}
use disguise.Negotiate.{Config}
use disguise.Negotiate.SuiteIds.{tls_ecdhe_rsa_with_aes_128_gcm_sha256}
use disguise.Negotiate.Suites.{
  CipherSuite, ServerAbilities, select_cipher_suite, passes_filter, cipher_suite_by_id, find_suite,
  config_cipher_suites, cipher_suite_ok,
}
use disguise.Ticket.Resumption.{
  SessionState, request_client_cert, requires_client_cert, certificates_fit, session_age,
  check_session, check_plaintext, check_for_resumption,
}
use disguise.Ticket.Resumption.Allowed.{IsAllowed, check_for_resumption_lem}
use disguise.Record.Toy.{swapped, swapped-swapped, length-swapped}

abbrev swapper : TicketCrypto
swapper = record {
  sum512 = λ b. b ++ b;
  aes_ctr = λ key iv text. some (swapped text);
  hmac_sha256 = λ key text. replicate 32 (length text);
}

abbrev old_key : TicketKey
old_key = record {
  key_name = replicate 16 1;
  aes_key = replicate 16 2;
  hmac_key = replicate 16 3;
  created = 0;
}

abbrev new_key : TicketKey
new_key = record old_key { key_name = replicate 16 4 }

old_key-IsSound : IsSound swapper old_key
old_key-IsSound = record {
  named = refl;
  hmac_length = λ t. length-replicate 32 (length t);
  ctr_undone = λ iv t h. (swapped t, refl, ap_some (swapped-swapped t), length-swapped t);
}
  where
    ap_some : {xs ys : List ℕ} → xs ≡ ys → some xs ≡ some ys
    ap_some e = cc

decrypt_ticket-encrypt_ticket_example :
    (t : List ℕ) × (encrypt_ticket swapper (old_key ∷ []) (some (replicate 16 9)) (5 ∷ 6 ∷ 7 ∷ [])
      ≡ ok t)
    × (decrypt_ticket swapper (new_key ∷ old_key ∷ []) t ≡ (some (5 ∷ 6 ∷ 7 ∷ []), true))
unfolding same_list
decrypt_ticket-encrypt_ticket_example =
    decrypt_ticket-encrypt_ticket swapper old_key [] (new_key ∷ []) [] (replicate 16 9)
      (5 ∷ 6 ∷ 7 ∷ []) old_key-IsSound refl (refl, tt)

-- A ticket of `old_key` with the text 6, 5.
abbrev a_ticket : List ℕ
a_ticket = (replicate 16 1 ++ (replicate 16 9 ++ (6 ∷ 5 ∷ []))) ++ replicate 32 34

abbrev marked_key : List ℕ
marked_key = deprecated_session_ticket_key ++ replicate 22 0

ticket_keys_lem_example :
    (key' : List ℕ) × (keys' : List TicketKey) × IsMarking (replicate 32 7) marked_key key'
    × IsRotation 90000000000000
        (ticket_key_from_bytes swapper 90000000000000 (replicate 32 8))
        (old_key ∷ [])
        keys'
    × ((ticket_key_from_bytes swapper 90000000000000 (replicate 32 8)).created ≡ 90000000000000)
    × (ticket_keys swapper 90000000000000 none
          (some (replicate 32 7))
          (some (replicate 32 8))
          none
          (automatic marked_key (old_key ∷ []))
        ≡ ok (none, automatic key' keys', keys'))
unfolding same_list
ticket_keys_lem_example =
    ticket_keys_lem swapper 90000000000000 (replicate 32 7) marked_key (replicate 32 8) none
      (old_key ∷ []) (inl refl)

decrypt_ticket-rotated_example :
    (t : List ℕ) × (c' : TicketConfig) × (keys' : List TicketKey) × (encrypt_ticket swapper
        (old_key ∷ [])
        (some (replicate 16 9))
        (5 ∷ [])
      ≡ ok t)
    × (ticket_keys swapper 90000000000000 none
          (some (replicate 32 7))
          (some (replicate 32 8))
          none
          (automatic (replicate 32 0) (old_key ∷ []))
        ≡ ok (none, c', keys'))
    × (decrypt_ticket swapper keys' t
        ≡ (some (5 ∷ []), not (ltb (90000000000000 - old_key.created) 86400000000000)))
unfolding same_list ticket_key_from_bytes
decrypt_ticket-rotated_example =
    decrypt_ticket-rotated swapper 90000000000000 (replicate 32 7) (replicate 32 0) (replicate 32 8)
      none old_key [] (replicate 16 9) (5 ∷ []) old_key-IsSound refl (omega arith) refl (inr refl)

abbrev without_tickets : TicketConfig
without_tickets = record (automatic marked_key []) { session_tickets_disabled = true }

ticket_keys_disabled_example :
    (d' : TicketConfig) × (ticket_keys swapper 0 none none none
        (some without_tickets)
        (automatic marked_key [])
      ≡ ok (some d', automatic marked_key [], []))
    × (set_session_ticket_keys swapper 1 (replicate 32 8 ∷ []) d' ≡ blocked)
ticket_keys_disabled_example =
    ticket_keys_disabled swapper 0 1 none none none without_tickets (automatic marked_key [])
      (replicate 32 8) [] refl

-- Every text is decoded to a session of TLS 1.2.
abbrev parse : List ℕ → SessionState × Bool
parse text = (
  record {
    vers = 0x0303;
    cipher_suite = tls_ecdhe_rsa_with_aes_128_gcm_sha256;
    created_at = 1000;
    master_secret = text;
    certificates = [];
    used_old_key = false;
  },
  true,
)

abbrev default_config : Config
default_config = record {
  min_version = 0;
  max_version = 0;
  cipher_suites = none;
  curve_preferences = [];
}

abbrev rsa_server : ServerAbilities
rsa_server = record {
  version = 0x0303;
  ecdhe_ok = true;
  ec_sign_ok = false;
  rsa_decrypt_ok = true;
  rsa_sign_ok = true;
}

abbrev offer : List ℕ
offer = tls_ecdhe_rsa_with_aes_128_gcm_sha256 ∷ []

check_for_resumption_lem_example :
    (key : TicketKey) × (i : ℕ) × (text : List ℕ) × (st : SessionState) × (u : CipherSuite) × (false
      ≡ false)
    × (find_key (take 16 a_ticket) (old_key ∷ []) 0 ≡ some (key, i))
    × (drop (length a_ticket - 32) a_ticket
        ≡ swapper.hmac_sha256 key.hmac_key (take (length a_ticket - 32) a_ticket))
    × (swapper.aes_ctr key.aes_key
          (take 16 (drop 16 a_ticket))
          (drop 32 (take (length a_ticket - 32) a_ticket))
        ≡ some text)
    × (st ≡ record (parse text).0 { used_old_key = ltb 0 i })
    × ((parse text).1 ≡ true)
    × IsAllowed default_config request_client_cert 1001000000000 rsa_server offer st u
    × (check_for_resumption swapper parse false default_config request_client_cert 1001000000000
          rsa_server
          (old_key ∷ [])
          a_ticket
          offer
        ≡ (some st, some u, true))
unfolding check_for_resumption decrypt_ticket decrypt_ticket_with find_key same_list check_plaintext
    check_session session_age contains select_cipher_suite passes_filter cipher_suite_by_id
    find_suite config_cipher_suites cipher_suite_ok certificates_fit requires_client_cert
check_for_resumption_lem_example =
    check_for_resumption_lem swapper parse false default_config request_client_cert 1001000000000
      rsa_server (old_key ∷ []) a_ticket offer refl

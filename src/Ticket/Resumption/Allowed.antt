-- ===== src/Ticket/Resumption/Allowed.antt =====
-- A session that the server resumes.
use disguise.Common.{
  ℕ, ◌+◌, ◌-◌, ◌*◌, ◌≤◌, ◌<◌, ◌≡◌, ◌⊎◌, refl, sym, ap, ◌∙◌, inl, inr, Bool-cases, Option-cases,
  Bool, true, false, not, ◌&&◌, Option, none, some, List, [], ◌∷◌, length, take, drop, ltb, ◌==◌,
  ==_iff, arith,
}
use disguise.Common.Choice.{contains}
use disguise.Negotiate.{Config}
use disguise.Negotiate.Suites.{
  CipherSuite, id_of, cipher_suite_by_id, passes_filter, config_cipher_suites, select_cipher_suite,
  ServerAbilities, cipher_suite_ok,
}
use disguise.Negotiate.Suites.Picked.{and_true, passes_filter-suite, cipher_suite_by_id-id}
use disguise.Ticket.{TicketKey, TicketCrypto, find_key, decrypt_ticket}
use disguise.Ticket.Opened.{decrypt_ticket_lem}
use disguise.Ticket.Resumption.{
  SessionState, ClientAuth, requires_client_cert, wants_none, has_certificates, certificates_fit,
  session_age, check_session, check_plaintext, max_session_ticket_lifetime, check_for_resumption,
}

-- What the server has made sure of.
pub record IsAllowed (config : Config) (auth : ClientAuth) (now : ℕ) (a : ServerAbilities)
    (offered : List ℕ) (st : SessionState) (u : CipherSuite) : Type 0 where
  pub young : now ≤ st.created_at * 1000000000 + 604800000000000
  pub after_1970 :
      (st.created_at < 9223371974719179008)
      ⊎ (now + (18446744073709551616 - st.created_at) * 1000000000 ≤ 604800000000000)
  pub same_version : a.version ≡ st.vers
  pub same_suite : id_of u ≡ st.cipher_suite
  pub still_offered : contains (id_of u) offered ≡ true
  pub still_configured : contains (id_of u) (config_cipher_suites config) ≡ true
  pub still_ok : cipher_suite_ok a u ≡ true
  pub known : (requires_client_cert auth && not (has_certificates st.certificates)) ≡ false
  pub wanted : (has_certificates st.certificates && wants_none auth) ≡ false

-- What the test of the age says.
young_lem :
    (now created_at : ℕ)
    → ltb max_session_ticket_lifetime (session_age now created_at) ≡ false
    → (now ≤ created_at * 1000000000 + 604800000000000)
      × ((created_at < 9223371974719179008)
          ⊎ (now + (18446744073709551616 - created_at) * 1000000000 ≤ 604800000000000))
unfolding session_age
young_lem now created_at h = elim (Bool-cases (ltb created_at 9223371974719179008)) [
  | inl early ↦
      let h' : ltb 604800000000000 (now - created_at * 1000000000) ≡ false =
        rw (session_age, early) at h in
      (ground (arith, h'), inl (ground (arith, early)))
  | inr late ↦
      let h' : ltb 604800000000000 (now + (18446744073709551616 - created_at) * 1000000000)
          ≡ false =
        rw (session_age, late) at h in
      let bound : now + (18446744073709551616 - created_at) * 1000000000 ≤ 604800000000000 =
        ground (arith, h') in
      (omega (arith, bound), inr bound)
]

false-true : false ≡ true → ⊥
false-true e = cc

certificates_fit_lem :
    (auth : ClientAuth) (certificates : List (List ℕ))
    → certificates_fit auth certificates ≡ true
    → ((requires_client_cert auth && not (has_certificates certificates)) ≡ false)
      × ((has_certificates certificates && wants_none auth) ≡ false)
unfolding certificates_fit
certificates_fit_lem auth certificates h =
    elim (Bool-cases (requires_client_cert auth && not (has_certificates certificates))) [
      | inl missing ↦ absurd (false-true (rw (certificates_fit, missing) at h))
      | inr known ↦ elim (Bool-cases (has_certificates certificates && wants_none auth)) [
        | inl unwanted ↦ absurd (false-true (rw (certificates_fit, known, unwanted) at h))
        | inr wanted ↦ (known, wanted)
      ]
    ]

-- A list of one identifier.
select_one :
    (id : ℕ) (supported : List ℕ) (ok : CipherSuite → Bool) (u : CipherSuite)
    → select_cipher_suite (id ∷ []) supported ok ≡ some u
    → (id_of u ≡ id) × (contains id supported ≡ true) × (ok u ≡ true)
unfolding select_cipher_suite
select_one id supported ok u h = elim (Bool-cases (passes_filter ok id && contains id supported)) [
  | inr left ↦ absurd (none-some (rw (select_cipher_suite, left) at h))
  | inl chosen ↦
      let (passes, there) = and_true (passes_filter ok id) (contains id supported) chosen in
      let (t, at, fine) = passes_filter-suite ok id passes in
      let its : cipher_suite_by_id id ≡ some u = rw (select_cipher_suite, chosen) at h in
      (cipher_suite_by_id-id id its, there, ap ok (suite-injective (sym its ∙ at)) ∙ fine)
]
  where
    none-some : none ≡ some u → ⊥
    none-some e = cc

    suite-injective : {t : CipherSuite} → some u ≡ some t → u ≡ t
    suite-injective e = cc

check_session_lem :
    (config : Config) (auth : ClientAuth) (now : ℕ) (a : ServerAbilities) (offered : List ℕ)
    (st : SessionState)
    → (check_session config auth now a offered st).1 ≡ true
    → (u : CipherSuite) × ((check_session config auth now a offered st).0 ≡ some u)
      × IsAllowed config auth now a offered st u
unfolding check_session
check_session_lem config auth now a offered st h =
    elim (Bool-cases (ltb max_session_ticket_lifetime (session_age now st.created_at))) [
      | inl old ↦ absurd (false-true (rw (check_session, old) at h))
      | inr young ↦ elim (Bool-cases (a.version == st.vers)) [
        | inr other ↦ absurd (false-true (rw (check_session, young, other) at h))
        | inl same ↦ elim (Bool-cases (contains st.cipher_suite offered)) [
          | inr gone ↦ absurd (false-true (rw (check_session, young, same, gone) at h))
          | inl there ↦
              elim (Option-cases (
                select_cipher_suite (st.cipher_suite ∷ []) (config_cipher_suites config)
                  (cipher_suite_ok a))) [
                    | inl left ↦
                        absurd (false-true (rw (check_session, young, same, there, left) at h))
                    | inr (u, found) ↦
                        let (id, configured, fine) =
                          select_one st.cipher_suite (config_cipher_suites config)
                            (cipher_suite_ok a) u found in
                        let (known, wanted) =
                          certificates_fit_lem auth st.certificates
                            (rw (check_session, young, same, there, found) at h) in
                        (
                          u,
                          rw (check_session, young, same, there, found) refl,
                          record {
                            young = (young_lem now st.created_at young).0;
                            after_1970 = (young_lem now st.created_at young).1;
                            same_version = (==_iff a.version st.vers).0 same;
                            same_suite = id;
                            still_offered = ap (λ i. contains i offered) id ∙ there;
                            still_configured =
                                ap (λ i. contains i (config_cipher_suites config)) id ∙ configured;
                            still_ok = fine;
                            known = known;
                            wanted = wanted;
                          },
                        )
                  ]
        ]
      ]
    ]

check_plaintext_lem :
    (parse : List ℕ → SessionState × Bool) (config : Config) (auth : ClientAuth) (now : ℕ)
    (a : ServerAbilities) (offered : List ℕ) (p : Option (List ℕ) × Bool)
    → (check_plaintext parse config auth now a offered p).2 ≡ true
    → (text : List ℕ) × (st : SessionState) × (u : CipherSuite) × (p ≡ (some text, p.1))
      × (st ≡ record (parse text).0 { used_old_key = p.1 })
      × ((parse text).1 ≡ true)
      × IsAllowed config auth now a offered st u
      × (check_plaintext parse config auth now a offered p ≡ (some st, some u, true))
unfolding check_plaintext
check_plaintext_lem parse config auth now a offered (none, old) h = absurd (false-true h)
check_plaintext_lem parse config auth now a offered (some text, old) h =
    let st = record (parse text).0 { used_old_key = old } in
    elim (Bool-cases (parse text).1) [
      | inr broken ↦ absurd (false-true (rw (check_plaintext, broken) at h))
      | inl whole ↦
          let good : (check_session config auth now a offered st).1 ≡ true =
            rw (check_plaintext, whole) at h in
          let (u, taken, allowed) = check_session_lem config auth now a offered st good in
          (
            text,
            st,
            u,
            refl,
            refl,
            whole,
            allowed,
            rw (check_plaintext, whole)
                (ap (λ o. (some st, o, (check_session config auth now a offered st).1)) taken
                  ∙ ap (λ b. (some st, some u, b)) good),
          )
    ]

-- Where `checkForResumption` says so, tickets are enabled; the ticket ends with the MAC, by the
-- key of the configuration that it names, of all that stands before; the session is decoded from
-- what that key's AES makes of the bytes between the IV and the MAC; and it is not older than a
-- week, also as a time before 1970, of the version of the connection, and of a suite that the
-- client offers, the configuration has and the certificate allows; it has a client's certificate
-- where one is required, and none where none is wanted.
pub check_for_resumption_lem :
    (C : TicketCrypto) (parse : List ℕ → SessionState × Bool) (disabled : Bool) (config : Config)
    (auth : ClientAuth) (now : ℕ) (a : ServerAbilities) (keys : List TicketKey)
    (ticket offered : List ℕ)
    → (check_for_resumption C parse disabled config auth now a keys ticket offered).2 ≡ true
    → (key : TicketKey) × (i : ℕ) × (text : List ℕ) × (st : SessionState) × (u : CipherSuite)
      × (disabled ≡ false)
      × (find_key (take 16 ticket) keys 0 ≡ some (key, i))
      × (drop (length ticket - 32) ticket
          ≡ C.hmac_sha256 key.hmac_key (take (length ticket - 32) ticket))
      × (C.aes_ctr key.aes_key
            (take 16 (drop 16 ticket))
            (drop 32 (take (length ticket - 32) ticket))
          ≡ some text)
      × (st ≡ record (parse text).0 { used_old_key = ltb 0 i })
      × ((parse text).1 ≡ true)
      × IsAllowed config auth now a offered st u
      × (check_for_resumption C parse disabled config auth now a keys ticket offered
          ≡ (some st, some u, true))
unfolding check_for_resumption
check_for_resumption_lem C parse disabled config auth now a keys ticket offered h =
    elim (Bool-cases disabled) [
      | inl off ↦ absurd (false-true (rw (check_for_resumption, off) at h))
      | inr on ↦
          let p = decrypt_ticket C keys ticket in
          let good : (check_plaintext parse config auth now a offered p).2 ≡ true =
            rw (check_for_resumption, on) at h in
          let (text, st, u, opened, its, whole, allowed, result) =
            check_plaintext_lem parse config auth now a offered p good in
          let (key, i, found, mac, read, index) =
            decrypt_ticket_lem C keys ticket text p.1 opened in
          (
            key,
            i,
            text,
            st,
            u,
            on,
            found,
            mac,
            read,
            its ∙ ap (λ b. record (parse text).0 { used_old_key = b }) index,
            whole,
            allowed,
            rw (check_for_resumption, on) result,
          )
    ]

-- ===== src/Ticket/Resumption.antt =====
-- handshake_server.go: `checkForResumption`. The decoding of a session state is cryptobyte's.
pub mod Allowed
use disguise.Common.{
  ℕ, ◌+◌, ◌-◌, ◌*◌, Bool, true, false, not, ◌&&◌, Option, none, some, List, [], ◌∷◌, ltb, ◌==◌,
  if◌then◌else◌,
}
use disguise.Common.Choice.{contains}
use disguise.Negotiate.{Config}
use disguise.Negotiate.Suites.{
  CipherSuite, config_cipher_suites, select_cipher_suite, ServerAbilities, cipher_suite_ok,
}
use disguise.Ticket.{TicketKey, TicketCrypto, decrypt_ticket}

-- `sessionState`; the time of its creation is in seconds.
pub record SessionState : Type 0 where
  pub vers : ℕ
  pub cipher_suite : ℕ
  pub created_at : ℕ
  pub master_secret : List ℕ
  pub certificates : List (List ℕ)
  pub used_old_key : Bool

-- `ClientAuthType`.
pub data ClientAuth : Type 0 where
  no_client_cert request_client_cert require_any_client_cert : ClientAuth
  verify_client_cert_if_given require_and_verify_client_cert : ClientAuth

unfoldable pub requires_client_cert : ClientAuth → Bool
requires_client_cert require_any_client_cert = true
requires_client_cert require_and_verify_client_cert = true
requires_client_cert auth = false

abbrev pub wants_none : ClientAuth → Bool
wants_none no_client_cert = true
wants_none auth = false

-- `sessionHasClientCerts`.
abbrev pub has_certificates : List (List ℕ) → Bool
has_certificates [] = false
has_certificates (c ∷ cs) = true

-- A week, in nanoseconds.
abbrev pub max_session_ticket_lifetime : ℕ
max_session_ticket_lifetime = 604800000000000

-- `Sub` of `time.Unix(int64(createdAt), 0)` from the time `now`, in nanoseconds since 1970. The conversion makes a
-- value of 2^63 or more negative, and `time.Unix`, which counts the seconds since the year 1, wraps the last
-- 62135596800 values before them: both are times before 1970. `Sub` of a later time is negative, and so below the
-- lifetime, as 0 is; where `Sub` stops at the greatest duration, it is above the lifetime.
unfoldable pub session_age : ℕ → ℕ → ℕ
session_age now created_at =
    if ltb created_at (0x8000000000000000 - 62135596800)
    then now - created_at * 1000000000
    else now + (0x10000000000000000 - created_at) * 1000000000

-- The tests of the certificates.
unfoldable pub certificates_fit : ClientAuth → List (List ℕ) → Bool
certificates_fit auth certificates =
    if requires_client_cert auth && not (has_certificates certificates)
    then false
    else if has_certificates certificates && wants_none auth
    then false
    else true

-- The tests of the session, with `hs.suite` after them.
unfoldable pub check_session :
    Config → ClientAuth → ℕ → ServerAbilities → List ℕ → SessionState → Option CipherSuite × Bool
check_session config auth now a offered st =
    if ltb max_session_ticket_lifetime (session_age now st.created_at)
    then (none, false)
    else if not (a.version == st.vers)
    then (none, false)
    else if not (contains st.cipher_suite offered)
    then (none, false)
    else elim (select_cipher_suite (st.cipher_suite ∷ []) (config_cipher_suites config)
        (cipher_suite_ok a)) [
          | none ↦ (none, false)
          | some u ↦ (some u, certificates_fit auth st.certificates)
        ]

-- What is done with the result of `decryptTicket`. `parse` is `sessionState.unmarshal`, with what it leaves in the
-- state and whether it succeeds.
unfoldable pub check_plaintext :
    (List ℕ → SessionState × Bool)
    → Config
    → ClientAuth
    → ℕ
    → ServerAbilities
    → List ℕ
    → Option (List ℕ) × Bool
    → Option SessionState × Option CipherSuite × Bool
check_plaintext parse config auth now a offered (none, old) = (none, none, false)
check_plaintext parse config auth now a offered (some text, old) =
    let st = record (parse text).0 { used_old_key = old } in
    let checked = check_session config auth now a offered st in
    if not (parse text).1 then (some st, none, false) else (some st, checked.0, checked.1)

-- `checkForResumption`: `hs.sessionState`, `hs.suite` and the result.
unfoldable pub check_for_resumption :
    TicketCrypto
    → (List ℕ → SessionState × Bool)
    → Bool
    → Config
    → ClientAuth
    → ℕ
    → ServerAbilities
    → List TicketKey
    → List ℕ
    → List ℕ
    → Option SessionState × Option CipherSuite × Bool
check_for_resumption C parse disabled config auth now a keys ticket offered =
    if disabled
    then (none, none, false)
    else check_plaintext parse config auth now a offered (decrypt_ticket C keys ticket)

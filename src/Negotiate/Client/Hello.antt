-- ===== src/Negotiate/Client/Hello.antt =====
-- handshake_client.go: `processServerHello`. The certificates of crypto/x509 are a type that is a parameter.
pub mod Stages
pub mod Asked
pub mod Checked
pub mod Accepted
pub mod Processed
use disguise.Alert as Alert
use disguise.Common.{
  ℕ, suc, Bool, true, false, not, ◌&&◌, Option, none, some, List, [], ◌∷◌, ltb, ◌==◌, if◌then◌else◌,
  replicate, copy, copy_from, Outcome, ok, panic, ◌>>=◌, on_error, Error, Reason, tls_error,
  unconfigured_suite, unsupported_compression, renegotiation_not_empty, bad_renegotiation,
  wrong_session_version, wrong_session_suite,
}
use disguise.Common.Crypto.{Crypto}
use disguise.Common.Texts.{same_list}
use disguise.Conn.{Conn}
use disguise.Conn.Output.{send_alert}
use disguise.Negotiate.Alpn.{check_alpn}
use disguise.Negotiate.Client.{ServerHello}
use disguise.Negotiate.Suites.{CipherSuite, id_of, mutual_cipher_suite}

-- The fields of `clientHelloMsg` that are looked at; the session id is none where it is nil.
pub record ClientHello : Type 0 where
  pub session_id : Option (List ℕ)
  pub cipher_suites : List ℕ
  pub alpn_protocols : List (List ℕ)

-- `ClientSessionState`.
pub record Session (X : Type 0) : Type 0 where
  pub vers : ℕ
  pub cipher_suite : ℕ
  pub master_secret : List ℕ
  pub server_certificates : List X
  pub verified_chains : List (List X)
  pub ocsp_response : List ℕ
  pub scts : List (List ℕ)

abbrev pub is_nil : List ℕ → Bool
is_nil [] = true
is_nil (x ∷ xs) = false

abbrev pub is_empty_list : List (List ℕ) → Bool
is_empty_list [] = true
is_empty_list (x ∷ xs) = false

module _ ⦃C : Crypto⦄ where
  -- `clientHandshakeState` and the fields of its connection that are set or tested.
  pub record ClientState (X : Type 0) : Type 0 where
    pub conn : Conn
    pub handshakes : ℕ
    pub secure_renegotiation : Bool
    pub client_finished : List ℕ
    pub server_finished : List ℕ
    pub client_protocol : List ℕ
    pub scts : List (List ℕ)
    pub peer_certificates : List X
    pub verified_chains : List (List X)
    pub ocsp_response : List ℕ
    pub cipher_suite : ℕ
    pub suite : Option CipherSuite
    pub master_secret : List ℕ

  -- The state after a test, and its error.
  abbrev pub ClientReply : Type 0 → Type 0
  ClientReply X = ClientState X × Option Error

  -- The state, whether the session was resumed, and the error.
  abbrev pub HelloReply : Type 0 → Type 0
  HelloReply X = ClientState X × Bool × Option Error

module _ ⦃C : Crypto⦄ {X : Type 0} where
  -- `c.sendAlert(code)`, and an error.
  unfoldable pub refuse : ℕ → Error → ClientState X → Outcome (ClientReply X)
  unfolding send_alert
  refuse code e s = do (c', sent) ← send_alert s.conn code; ok (record s { conn = c' }, some e)

  -- One test after the other.
  abbrev pub and_then :
      Outcome (ClientReply X) → (ClientState X → Outcome (ClientReply X)) → Outcome (ClientReply X)
  and_then first next = do (s, e) ← first; let rest = next s; on_error e (λ e. ok (s, some e)) rest

  -- `pickCipherSuite`.
  unfoldable pub take_suite : ClientHello → ServerHello → ClientState X → Outcome (ClientReply X)
  unfolding refuse
  take_suite hello server s = elim (mutual_cipher_suite hello.cipher_suites server.cipher_suite) [
    | none ↦
        refuse Alert.handshake_failure (tls_error unconfigured_suite) (record s { suite = none })
    | some u ↦ ok (record s { suite = some u; cipher_suite = id_of u }, none)
  ]

  unfoldable pub check_compression : ServerHello → ClientState X → Outcome (ClientReply X)
  unfolding refuse
  check_compression server s =
      if not (server.compression_method == 0)
      then refuse Alert.unexpected_message (tls_error unsupported_compression) s
      else ok (s, none)

  unfoldable pub first_renegotiation : ServerHello → ClientState X → Outcome (ClientReply X)
  unfolding refuse
  first_renegotiation server s =
      let s' = record s { secure_renegotiation = true } in
      if s.handshakes == 0 && server.secure_renegotiation_supported
      then (if not (is_nil server.secure_renegotiation)
          then refuse Alert.handshake_failure (tls_error renegotiation_not_empty) s'
          else ok (s', none))
      else ok (s, none)

  -- `expectedSecureRenegotiation`.
  abbrev pub expected_renegotiation : ClientState X → List ℕ
  expected_renegotiation s =
      copy_from 12 (copy (replicate 24 0) s.client_finished) s.server_finished

  unfoldable pub later_renegotiation : ServerHello → ClientState X → Outcome (ClientReply X)
  unfolding refuse
  later_renegotiation server s =
      if ltb 0 s.handshakes && s.secure_renegotiation
      then (if not (same_list server.secure_renegotiation (expected_renegotiation s))
          then refuse Alert.handshake_failure (tls_error bad_renegotiation) s
          else ok (s, none))
      else ok (s, none)

  unfoldable pub take_alpn : ClientHello → ServerHello → ClientState X → Outcome (ClientReply X)
  unfolding refuse
  take_alpn hello server s = elim (check_alpn hello.alpn_protocols server.alpn_protocol) [
    | some e ↦ refuse Alert.unsupported_extension e s
    | none ↦ ok (record s { client_protocol = server.alpn_protocol; scts = server.scts }, none)
  ]

  -- The tests before the question of resumption.
  unfoldable pub check_hello : ClientHello → ServerHello → ClientState X → Outcome (ClientReply X)
  unfolding take_suite check_compression first_renegotiation later_renegotiation take_alpn
  check_hello hello server s =
      and_then
        (and_then
          (and_then (and_then (take_suite hello server s) (check_compression server))
            (first_renegotiation server))
          (later_renegotiation server))
        (take_alpn hello server)

  -- `serverResumedSession`.
  unfoldable pub server_resumed_session :
      ClientHello → ServerHello → Option (Session X) → Option (Session X)
  server_resumed_session hello server none = none
  server_resumed_session hello server (some x) = elim hello.session_id [
    | none ↦ none
    | some id ↦ if same_list server.session_id id then some x else none
  ]

  -- What is restored from the session.
  abbrev pub restored : Session X → ClientState X → ClientState X
  restored x s = record s {
    master_secret = x.master_secret;
    peer_certificates = x.server_certificates;
    verified_chains = x.verified_chains;
    ocsp_response = x.ocsp_response;
    scts = if is_empty_list s.scts && not (is_empty_list x.scts) then x.scts else s.scts;
  }

  abbrev pub without_resumption : Outcome (ClientReply X) → Outcome (HelloReply X)
  without_resumption refused = do (s', e) ← refused; ok (s', false, e)

  -- The tests of the session that is resumed.
  unfoldable pub resume_session : Session X → ClientState X → Outcome (HelloReply X)
  unfolding refuse
  resume_session x s =
      if not (x.vers == s.conn.sender.vers)
      then without_resumption (refuse Alert.handshake_failure (tls_error wrong_session_version) s)
      else elim s.suite [
        | none ↦ panic
        | some u ↦
            if not (x.cipher_suite == id_of u)
            then without_resumption
                (refuse Alert.handshake_failure (tls_error wrong_session_suite) s)
            else ok (restored x s, true, none)
      ]

  -- `processServerHello`; `session` is `hs.session`.
  unfoldable pub process_server_hello :
      ClientHello → ServerHello → Option (Session X) → ClientState X → Outcome (HelloReply X)
  unfolding check_hello resume_session server_resumed_session
  process_server_hello hello server session s = do
    (s', e) ← check_hello hello server s
    let rest : Outcome (HelloReply X) = elim (server_resumed_session hello server session) [
      | none ↦ ok (s', false, none)
      | some x ↦ resume_session x s'
    ]
    on_error e (λ e. ok (s', false, some e)) rest

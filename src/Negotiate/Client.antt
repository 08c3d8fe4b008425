-- ===== src/Negotiate/Client.antt =====
-- handshake_client.go: what the client makes of a ServerHello, with the alerts that it sends, and the
-- server's random that it looks at (handshake_server.go).
pub mod Downgrade
pub mod Hello
use disguise.Alert as Alert
use disguise.Common.{
  ℕ, Bool, true, false, not, ◌&&◌, ◌||◌, Option, none, some, List, [], ◌∷◌, ltb, leb, ◌==◌,
  if◌then◌else◌, replicate, copy, copy_from, Outcome, ok, ◌>>=◌, on_error, Reason, tls_error,
  unsupported_version, downgrade_attempt,
}
use disguise.Common.Bytes.{slice_from}
use disguise.Common.Crypto.{Crypto}
use disguise.Common.Texts.{same_list}
use disguise.Conn.{Conn, Reply}
use disguise.Conn.Output.{send_alert}
use disguise.Negotiate.{Config}
use disguise.Negotiate.Versions.{mutual_version, max_supported_version, supported_versions_from_max}

-- "DOWNGRD\x01" and "DOWNGRD\x00".
abbrev pub downgrade_canary_tls12 : List ℕ
downgrade_canary_tls12 = 68 ∷ 79 ∷ 87 ∷ 78 ∷ 71 ∷ 82 ∷ 68 ∷ 1 ∷ []

abbrev pub downgrade_canary_tls11 : List ℕ
downgrade_canary_tls11 = 68 ∷ 79 ∷ 87 ∷ 78 ∷ 71 ∷ 82 ∷ 68 ∷ 0 ∷ []

-- The versions that the server takes the client to offer.
unfoldable pub client_versions : ℕ → List ℕ → List ℕ
client_versions vers [] = supported_versions_from_max vers
client_versions vers (v ∷ vs) = v ∷ vs

-- `hello.random` of `serverHandshakeState.processClientHello`: `draw` is what `io.ReadFull` reads, none where it
-- fails, `testing` is `testingOnlyForceDowngradeCanary`.
unfoldable pub server_random : Bool → ℕ → ℕ → (ℕ → Option (List ℕ)) → Option (List ℕ)
server_random testing max_vers vers draw =
    if leb 0x0303 max_vers && ltb vers max_vers || testing
    then (let canary = if vers == 0x0303 then downgrade_canary_tls12 else downgrade_canary_tls11 in
        elim (draw 24) [
          | none ↦ none
          | some r ↦ some (copy (copy_from 24 (replicate 32 0) canary) r)
        ])
    else elim (draw 32) [ none ↦ none | some r ↦ some (copy (replicate 32 0) r) ]

-- The fields of `serverHelloMsg` that the client looks at before TLS 1.3.
pub record ServerHello : Type 0 where
  pub vers : ℕ
  pub random : List ℕ
  pub session_id : List ℕ
  pub cipher_suite : ℕ
  pub compression_method : ℕ
  pub secure_renegotiation_supported : Bool
  pub secure_renegotiation : List ℕ
  pub alpn_protocol : List ℕ
  pub scts : List (List ℕ)
  pub supported_version : ℕ

-- `peerVersion`.
unfoldable pub peer_version : ServerHello → ℕ
peer_version hello = if hello.supported_version == 0 then hello.vers else hello.supported_version

-- The test for the canaries, on the last bytes of the random.
unfoldable pub is_downgrade : ℕ → ℕ → List ℕ → Bool
is_downgrade max_vers vers tail =
    let tls12 = same_list tail downgrade_canary_tls12 in
    let tls11 = same_list tail downgrade_canary_tls11 in
    (max_vers == 0x0304 && leb vers 0x0303 && (tls12 || tls11))
    || (max_vers == 0x0303 && leb vers 0x0302 && tls11)

module _ ⦃C : Crypto⦄ where
  -- `c.sendAlert(code)`, and an error.
  unfoldable pub refuse_hello : ℕ → Reason → Conn → Outcome Reply
  unfolding send_alert
  refuse_hello code reason c = do (c', sent) ← send_alert c code; ok (c', some (tls_error reason))

  -- The version of the connection and of its two directions.
  abbrev pub with_version : ℕ → Conn → Conn
  with_version v c = record c {
    sender = record c.sender { vers = v; out = record c.sender.out { version = v } };
    have_vers = true;
    incoming = record c.incoming { version = v };
  }

  -- `pickTLSVersion`.
  unfoldable pub pick_tls_version : Bool → Config → ServerHello → Conn → Outcome Reply
  unfolding refuse_hello
  pick_tls_version debug config hello c =
      let (v, found) = mutual_version debug (some config) true (peer_version hello ∷ []) in
      if not found
      then refuse_hello Alert.protocol_version unsupported_version c
      else ok (with_version v c, none)

  -- The test of `clientHandshake` for the canaries.
  unfoldable pub check_downgrade : Bool → Config → ServerHello → Conn → Outcome Reply
  unfolding refuse_hello
  check_downgrade debug config hello c = do
    tail ← slice_from 24 hello.random
    if is_downgrade (max_supported_version debug (some config) true) c.sender.vers tail
        then refuse_hello Alert.illegal_parameter downgrade_attempt c
        else ok (c, none)

  -- `clientHandshake`, from `pickTLSVersion` to the handshake of the version.
  unfoldable pub agree_version : Bool → Config → ServerHello → Conn → Outcome Reply
  unfolding pick_tls_version check_downgrade
  agree_version debug config hello c = do
    (c', e) ← pick_tls_version debug config hello c
    let rest = check_downgrade debug config hello c'
    on_error e (λ e. ok (c', some e)) rest

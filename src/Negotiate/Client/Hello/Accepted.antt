-- ===== src/Negotiate/Client/Hello/Accepted.antt =====
-- What the client makes sure of in a hello, what it sets, and what comes from a session.
use disguise.Common.{
  ℕ, ◌≡◌, ◌≢◌, refl, sym, ap, ◌∙◌, ◌⊎◌, inl, inr, Bool-cases, Option-cases, true, false, not, ◌&&◌,
  ◌||◌, Option, none, some, List, [], ◌∷◌, if◌then◌else◌, ◌==◌,
}
use disguise.Common.Crypto.{Crypto}
use disguise.Common.Texts.{same_list, same_list-eq, same_list_refl}
use disguise.Common.Choice.{contains}
use disguise.Negotiate.Client.{ServerHello}
use disguise.Negotiate.Client.Hello.{
  ClientHello, Session, is_empty_list, ClientState, server_resumed_session, restored,
}
use disguise.Negotiate.Suites.{CipherSuite, id_of, cipher_suite_by_id, mutual_cipher_suite}
use disguise.Negotiate.Client.Hello.Stages.{taken, IsSecure, IsInsecure}
use disguise.Negotiate.Client.Hello.Asked.{IsAsked, IsUnasked}

true-false : true ≡ false → ⊥
true-false e = cc

-- The client's lookup of the suite.
pub mutual_cipher_suite-cases :
    (have : List ℕ) (want : ℕ)
    → ((mutual_cipher_suite have want ≡ none)
        × ((contains want have ≡ false) ⊎ (cipher_suite_by_id want ≡ none)))
      ⊎ ((u : CipherSuite) × (mutual_cipher_suite have want ≡ some u)
          × (contains want have ≡ true)
          × (cipher_suite_by_id want ≡ some u))
unfolding mutual_cipher_suite
mutual_cipher_suite-cases have want = elim (Bool-cases (contains want have)) [
  | inr missing ↦ inl (rw (mutual_cipher_suite, missing) refl, inl missing)
  | inl there ↦ elim (Option-cases (cipher_suite_by_id want)) [
    | inl gone ↦ inl (rw (mutual_cipher_suite, there) gone, inr gone)
    | inr (u, found) ↦ inr (u, rw (mutual_cipher_suite, there) found, there, found)
  ]
]

module _ ⦃C : Crypto⦄ {X : Type 0} where
  -- The client has no session that it asked to resume, or the server has not echoed its id.
  abbrev pub IsNew : ClientHello → ServerHello → Option (Session X) → Type 0
  IsNew hello server session = (session ≡ none) ⊎ (hello.session_id ≢ some server.session_id)

  -- The session that is resumed is the client's, and the server has echoed its id.
  pub server_resumed_session-cases :
      (hello : ClientHello) (server : ServerHello) (session : Option (Session X))
      → ((server_resumed_session hello server session ≡ none) × IsNew hello server session)
        ⊎ ((x : Session X) × (server_resumed_session hello server session ≡ some x)
            × (session ≡ some x)
            × (hello.session_id ≡ some server.session_id))
  unfolding server_resumed_session
  server_resumed_session-cases hello server none = inl (refl, inl refl)
  server_resumed_session-cases hello server (some y) = elim (Option-cases hello.session_id) [
    | inl gone ↦ inl (rw (server_resumed_session, gone) refl, inr (λ e. none-some (sym gone ∙ e)))
    | inr (id, there) ↦ elim (Bool-cases (same_list server.session_id id)) [
      | inl same ↦ inr (
        y,
        rw (server_resumed_session, there, same) refl,
        refl,
        there ∙ ap some (sym (same_list-eq server.session_id id same)),
      )
      | inr other ↦ inl (
        rw (server_resumed_session, there, other) refl,
        inr (λ e. differ id other (sym there ∙ e)),
      )
    ]
  ]
    where
      none-some : {z : List ℕ} → none ≡ some z → ⊥
      none-some e = cc

      list-injective : {a b : List ℕ} → some a ≡ some b → a ≡ b
      list-injective e = cc

      differ :
          (id : List ℕ)
          → same_list server.session_id id ≡ false
          → some id ≡ some server.session_id
          → ⊥
      differ id other e = true-false (
          sym (same_list_refl server.session_id)
          ∙ ap (same_list server.session_id) (sym (list-injective e))
          ∙ other)

  -- What the client has made sure of: the suite is the one of the table that the server named, and
  -- the client offered it; no compression; the renegotiation extension and the protocol are right.
  pub record IsAccepted (hello : ClientHello) (server : ServerHello) (s : ClientState X)
      (u : CipherSuite) : Type 0 where
    pub offered : contains server.cipher_suite hello.cipher_suites ≡ true
    pub known : cipher_suite_by_id server.cipher_suite ≡ some u
    pub named : id_of u ≡ server.cipher_suite
    pub plain : server.compression_method ≡ 0
    pub secure : IsSecure server s
    pub asked : IsAsked hello server

  -- A session that is asked for and echoed, but is of another version or suite.
  abbrev pub IsMismatch : ClientHello → ServerHello → Option (Session X) → ClientState X → Type 0
  IsMismatch hello server session s =
      (x : Session X) × (session ≡ some x)
      × (hello.session_id ≡ some server.session_id)
      × ((x.vers ≢ s.conn.sender.vers) ⊎ (x.cipher_suite ≢ server.cipher_suite))

  -- What is wrong with a hello.
  abbrev pub IsUnacceptable :
      ClientHello → ServerHello → Option (Session X) → ClientState X → Type 0
  IsUnacceptable hello server session s =
      (contains server.cipher_suite hello.cipher_suites ≡ false)
      ⊎ (cipher_suite_by_id server.cipher_suite ≡ none)
      ⊎ (server.compression_method ≢ 0)
      ⊎ IsInsecure server s
      ⊎ IsUnasked hello server
      ⊎ IsMismatch hello server session s

  -- What a hello that is taken sets, and what it leaves.
  pub record IsTaken (server : ServerHello) (u : CipherSuite) (s s' : ClientState X) : Type 0 where
    pub suite : s'.suite ≡ some u
    pub cipher_suite : s'.cipher_suite ≡ server.cipher_suite
    pub client_protocol : s'.client_protocol ≡ server.alpn_protocol
    pub secure_renegotiation :
        s'.secure_renegotiation
        ≡ ((s.handshakes == 0 && server.secure_renegotiation_supported) || s.secure_renegotiation)
    pub conn : s'.conn ≡ s.conn
    pub handshakes : s'.handshakes ≡ s.handshakes
    pub client_finished : s'.client_finished ≡ s.client_finished
    pub server_finished : s'.server_finished ≡ s.server_finished

  -- Nothing comes from a session.
  pub record IsFull (server : ServerHello) (s s' : ClientState X) : Type 0 where
    pub master_secret : s'.master_secret ≡ s.master_secret
    pub peer_certificates : s'.peer_certificates ≡ s.peer_certificates
    pub verified_chains : s'.verified_chains ≡ s.verified_chains
    pub ocsp_response : s'.ocsp_response ≡ s.ocsp_response
    pub scts : s'.scts ≡ server.scts

  -- The secret, the certificates and the OCSP response of the session; its SCTs where the hello has none.
  pub record IsResumed (server : ServerHello) (x : Session X) (s' : ClientState X) : Type 0 where
    pub master_secret : s'.master_secret ≡ x.master_secret
    pub peer_certificates : s'.peer_certificates ≡ x.server_certificates
    pub verified_chains : s'.verified_chains ≡ x.verified_chains
    pub ocsp_response : s'.ocsp_response ≡ x.ocsp_response
    pub scts :
        ((server.scts ≡ []) × (s'.scts ≡ x.scts)) ⊎ ((server.scts ≢ []) × (s'.scts ≡ server.scts))

  pub taken-IsTaken :
      (server : ServerHello) (u : CipherSuite) (s : ClientState X)
      → id_of u ≡ server.cipher_suite
      → IsTaken server u s (taken u server s) × IsFull server s (taken u server s)
  unfolding taken
  taken-IsTaken server u s h = (
    record {
      suite = refl;
      cipher_suite = h;
      client_protocol = refl;
      secure_renegotiation = refl;
      conn = refl;
      handshakes = refl;
      client_finished = refl;
      server_finished = refl;
    },
    record {
      master_secret = refl;
      peer_certificates = refl;
      verified_chains = refl;
      ocsp_response = refl;
      scts = refl;
    },
  )

  pub restored-IsTaken :
      (server : ServerHello) (u : CipherSuite) (s : ClientState X) (x : Session X)
      → id_of u ≡ server.cipher_suite
      → IsTaken server u s (restored x (taken u server s))
        × IsResumed server x (restored x (taken u server s))
  unfolding taken
  restored-IsTaken server u s x h = (
    record {
      suite = refl;
      cipher_suite = h;
      client_protocol = refl;
      secure_renegotiation = refl;
      conn = refl;
      handshakes = refl;
      client_finished = refl;
      server_finished = refl;
    },
    record {
      master_secret = refl;
      peer_certificates = refl;
      verified_chains = refl;
      ocsp_response = refl;
      scts = chosen server.scts x.scts;
    },
  )
    where
      chosen :
          (new old : List (List ℕ))
          → ((new ≡ [])
              × ((if is_empty_list new && not (is_empty_list old) then old else new) ≡ old))
            ⊎ ((new ≢ [])
                × ((if is_empty_list new && not (is_empty_list old) then old else new) ≡ new))
      chosen [] [] = inl (refl, refl)
      chosen [] (y ∷ ys) = inl (refl, refl)
      chosen (z ∷ zs) old = inr ((λ e. cons-nil e), refl)
        where
          cons-nil : (z ∷ zs) ≡ [] → ⊥
          cons-nil e = cc

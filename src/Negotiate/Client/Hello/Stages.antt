-- ===== src/Negotiate/Client/Hello/Stages.antt =====
-- The tests of `processServerHello` before the question of resumption, one after the other.
use disguise.Common.{
  ℕ, ◌≡◌, ◌≢◌, refl, ◌⊎◌, inl, inr, Bool-cases, Option-cases, Bool, true, false, not, ◌&&◌, ◌||◌,
  none, some, List, ltb, ◌==◌, if◌then◌else◌, Error, Outcome, ok, on_error, Gives, gives_ok,
  >>=-Gives, arith,
}
use disguise.Common.Crypto.{Crypto}
use disguise.Common.Texts.{same_list}
use disguise.Conn.Output.Ends.{send_alert-Gives}
use disguise.Negotiate.Alpn.{check_alpn}
use disguise.Negotiate.Client.{ServerHello}
use disguise.Negotiate.Client.Hello.{
  ClientHello, ClientState, ClientReply, is_nil, refuse, and_then, first_renegotiation,
  expected_renegotiation, later_renegotiation, take_alpn,
}
use disguise.Negotiate.Suites.{CipherSuite, id_of}
use disguise.Negotiate.Client.Hello.Asked.{
  IsAsked, IsUnasked, check_alpn-IsAsked, check_alpn-IsUnasked,
}

module _ ⦃C : Crypto⦄ {X : Type 0} where
  -- An error, with the master secret `m` left as it was.
  abbrev pub IsRefused : List ℕ → ClientReply X → Type 0
  IsRefused m (s, none) = ⊥
  IsRefused m (s, some e) = s.master_secret ≡ m

  -- A call comes to the state `s` without an error, and `F` holds, or `N` holds and it refuses.
  abbrev pub Passes : List ℕ → Type 0 → Type 0 → ClientState X → Outcome (ClientReply X) → Type 0
  Passes m F N s o = (F × (o ≡ ok (s, none))) ⊎ (N × Gives (IsRefused m) o)

  pub refuse-IsRefused :
      (code : ℕ) (e : Error) (s : ClientState X)
      → code ≢ 0
      → Gives (IsRefused s.master_secret) (refuse code e s)
  unfolding refuse
  refuse-IsRefused code e s other =
      >>=-Gives _ _ (send_alert-Gives s.conn code other) (λ reply p. gives_ok refl)

  -- A test that ends in a refusal.
  pub if-Passes :
      (b : Bool) (code : ℕ) (e : Error) (s : ClientState X)
      → code ≢ 0
      → Passes s.master_secret
          (b ≡ false)
          (b ≡ true)
          s
          (if b then refuse code e s else ok (s, none))
  if-Passes true code e s other = inr (refl, refuse-IsRefused code e s other)
  if-Passes false code e s other = inl (refl, refl)

  pub and_then-IsRefused :
      (m : List ℕ) (first : Outcome (ClientReply X))
      (next : ClientState X → Outcome (ClientReply X))
      → Gives (IsRefused m) first
      → Gives (IsRefused m) (and_then first next)
  and_then-IsRefused m first next bad = >>=-Gives _ _ bad stop
    where
      stop :
          (reply : ClientReply X)
          → IsRefused m reply
          → Gives (IsRefused m) (on_error reply.1 (λ e. ok (reply.0, some e)) (next reply.0))
      stop (s, none) p = absurd p
      stop (s, some e) p = gives_ok p

  pub and_then-Passes :
      (m : List ℕ) (F G N P : Type 0) (s1 s2 : ClientState X) (first : Outcome (ClientReply X))
      (next : ClientState X → Outcome (ClientReply X))
      → Passes m F N s1 first
      → Passes m G P s2 (next s1)
      → Passes m (F × G) (N ⊎ P) s2 (and_then first next)
  and_then-Passes m F G N P s1 s2 first next (inl (f, e)) (inl (g, e')) = inl ((f, g), rw e e')
  and_then-Passes m F G N P s1 s2 first next (inl (f, e)) (inr (p, bad)) = inr (inr p, rw e bad)
  and_then-Passes m F G N P s1 s2 first next (inr (n, bad)) later =
      inr (inl n, and_then-IsRefused m first next bad)

  -- The state after the tests, with the suite `u`.
  unfoldable pub taken : CipherSuite → ServerHello → ClientState X → ClientState X
  taken u server s = record s {
    suite = some u;
    cipher_suite = id_of u;
    secure_renegotiation =
        (s.handshakes == 0 && server.secure_renegotiation_supported) || s.secure_renegotiation;
    client_protocol = server.alpn_protocol;
    scts = server.scts;
  }

  -- The renegotiation extension is empty in the first handshake, and in a later one on a secure
  -- connection it is the two Finished messages of the one before.
  abbrev pub IsSecure : ServerHello → ClientState X → Type 0
  IsSecure server s =
      ((s.handshakes == 0
          && server.secure_renegotiation_supported
          && not (is_nil server.secure_renegotiation))
        ≡ false)
      × ((ltb 0 s.handshakes
            && s.secure_renegotiation
            && not (same_list server.secure_renegotiation (expected_renegotiation s)))
          ≡ false)

  abbrev pub IsInsecure : ServerHello → ClientState X → Type 0
  IsInsecure server s =
      ((s.handshakes == 0
          && server.secure_renegotiation_supported
          && not (is_nil server.secure_renegotiation))
        ≡ true)
      ⊎ ((ltb 0 s.handshakes
            && s.secure_renegotiation
            && not (same_list server.secure_renegotiation (expected_renegotiation s)))
          ≡ true)

  pub first_renegotiation-Passes :
      (server : ServerHello) (s : ClientState X)
      → Passes s.master_secret
          ((s.handshakes == 0
              && server.secure_renegotiation_supported
              && not (is_nil server.secure_renegotiation))
            ≡ false)
          ((s.handshakes == 0
              && server.secure_renegotiation_supported
              && not (is_nil server.secure_renegotiation))
            ≡ true)
          (record s {
            secure_renegotiation =
                (s.handshakes == 0 && server.secure_renegotiation_supported)
                || s.secure_renegotiation;
          })
          (first_renegotiation server s)
  unfolding first_renegotiation
  first_renegotiation-Passes server s =
      elim (Bool-cases (s.handshakes == 0 && server.secure_renegotiation_supported)) [
        | inl starts ↦
            rw (first_renegotiation, starts)
              (if-Passes (not (is_nil server.secure_renegotiation)) 40 _
                (record s { secure_renegotiation = true }) (omega arith))
        | inr other ↦ rw (first_renegotiation, other) (inl (refl, refl))
      ]

  pub later_renegotiation-Passes :
      (server : ServerHello) (s : ClientState X)
      → Passes s.master_secret
          ((ltb 0 s.handshakes
              && s.secure_renegotiation
              && not (same_list server.secure_renegotiation (expected_renegotiation s)))
            ≡ false)
          ((ltb 0 s.handshakes
              && s.secure_renegotiation
              && not (same_list server.secure_renegotiation (expected_renegotiation s)))
            ≡ true)
          s
          (later_renegotiation server s)
  unfolding later_renegotiation
  later_renegotiation-Passes server s =
      elim (Bool-cases (ltb 0 s.handshakes && s.secure_renegotiation)) [
        | inl later ↦
            rw (later_renegotiation, later)
              (if-Passes (not (same_list server.secure_renegotiation (expected_renegotiation s))) 40
                _ s (omega arith))
        | inr other ↦ rw (later_renegotiation, other) (inl (refl, refl))
      ]

  pub take_alpn-Passes :
      (hello : ClientHello) (server : ServerHello) (s : ClientState X)
      → Passes s.master_secret
          (IsAsked hello server)
          (IsUnasked hello server)
          (record s { client_protocol = server.alpn_protocol; scts = server.scts })
          (take_alpn hello server s)
  unfolding take_alpn
  take_alpn-Passes hello server s =
      elim (Option-cases (check_alpn hello.alpn_protocols server.alpn_protocol)) [
        | inl fine ↦ inl (check_alpn-IsAsked hello server fine, rw (take_alpn, fine) refl)
        | inr (e, bad) ↦ inr (
          check_alpn-IsUnasked hello server e bad,
          rw (take_alpn, bad) (refuse-IsRefused 110 e s (omega arith)),
        )
      ]

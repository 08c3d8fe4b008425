-- ===== src/Negotiate/Client/Hello/Checked.antt =====
-- The tests of `processServerHello` together.
use disguise.Common.{
  ℕ, zero, suc, ◌≡◌, ◌≢◌, refl, sym, ◌∙◌, ◌⊎◌, inl, inr, Bool, true, false, not, ◌&&◌, ◌||◌, none,
  some, List, ltb, ◌==◌, Outcome, Gives, arith,
}
use disguise.Common.Crypto.{Crypto}
use disguise.Common.Texts.{same_list}
use disguise.Negotiate.Client.{ServerHello}
use disguise.Negotiate.Client.Hello.{
  ClientHello, ClientState, ClientReply, is_nil, take_suite, check_compression, first_renegotiation,
  expected_renegotiation, later_renegotiation, take_alpn, check_hello,
}
use disguise.Negotiate.Suites.{CipherSuite, id_of, mutual_cipher_suite}
use disguise.Negotiate.Client.Hello.Asked.{IsAsked, IsUnasked}
use disguise.Negotiate.Client.Hello.Stages.{
  IsRefused, Passes, refuse-IsRefused, if-Passes, and_then-IsRefused, and_then-Passes, taken,
  IsSecure, IsInsecure, first_renegotiation-Passes, later_renegotiation-Passes, take_alpn-Passes,
}

-- The first test says nothing of the second where there was a handshake before.
later_secure :
    (n : ℕ) (supported secure wrong : Bool)
    → (ltb 0 n && ((n == 0 && supported) || secure) && wrong) ≡ (ltb 0 n && secure && wrong)
later_secure zero supported secure wrong = refl
later_secure (suc n) supported secure wrong = ground arith

module _ ⦃C : Crypto⦄ {X : Type 0} where
  Passes-map :
      (m : List ℕ) (F G N P : Type 0) (s : ClientState X) (o : Outcome (ClientReply X))
      → (F → G)
      → (N → P)
      → Passes m F N s o
      → Passes m G P s o
  Passes-map m F G N P s o f n (inl (h, e)) = inl (f h, e)
  Passes-map m F G N P s o f n (inr (p, bad)) = inr (n p, bad)

  -- The tests come one after the other.
  pub check_hello-Passes :
      (hello : ClientHello) (server : ServerHello) (s : ClientState X) (u : CipherSuite)
      → mutual_cipher_suite hello.cipher_suites server.cipher_suite ≡ some u
      → Passes s.master_secret
          ((server.compression_method ≡ 0) × IsSecure server s × IsAsked hello server)
          ((server.compression_method ≢ 0) ⊎ IsInsecure server s ⊎ IsUnasked hello server)
          (taken u server s)
          (check_hello hello server s)
  unfolding check_hello take_suite check_compression taken
  check_hello-Passes hello server s u agreed =
      Passes-map m _ _ _ _ (taken u server s) (check_hello hello server s) facts reasons (
        and_then-Passes m _ _ _ _ s2 (taken u server s) _ (take_alpn hello server)
          (and_then-Passes m _ _ _ _ s2 s2 _ (later_renegotiation server)
            (and_then-Passes m _ _ _ _ s1 s2 _ (first_renegotiation server)
              (and_then-Passes m (Unit {0}) _ ⊥ _ s1 s1 _ (check_compression server)
                (inl (tt, rw (take_suite, agreed) refl))
                (if-Passes (not (server.compression_method == 0)) 10 _ s1 (omega arith)))
              (first_renegotiation-Passes server s1))
            (later_renegotiation-Passes server s2))
          (take_alpn-Passes hello server s2))
    where
      m : List ℕ
      m = s.master_secret

      s1 : ClientState X
      s1 = record s { suite = some u; cipher_suite = id_of u }

      s2 : ClientState X
      s2 = record s1 {
        secure_renegotiation =
            (s.handshakes == 0 && server.secure_renegotiation_supported) || s.secure_renegotiation;
      }

      A : Type 0
      A = not (server.compression_method == 0) ≡ false

      B : Type 0
      B =
          (s.handshakes == 0
            && server.secure_renegotiation_supported
            && not (is_nil server.secure_renegotiation))
          ≡ false

      D : Type 0
      D =
          (ltb 0 s.handshakes
            && s2.secure_renegotiation
            && not (same_list server.secure_renegotiation (expected_renegotiation s)))
          ≡ false

      E : Type 0
      E = IsAsked hello server

      later :
          (ltb 0 s.handshakes
            && s2.secure_renegotiation
            && not (same_list server.secure_renegotiation (expected_renegotiation s)))
          ≡ (ltb 0 s.handshakes
              && s.secure_renegotiation
              && not (same_list server.secure_renegotiation (expected_renegotiation s)))
      later =
          later_secure s.handshakes server.secure_renegotiation_supported s.secure_renegotiation _

      reasons :
          (((⊥ ⊎ (not (server.compression_method == 0) ≡ true))
                ⊎ ((s.handshakes == 0
                      && server.secure_renegotiation_supported
                      && not (is_nil server.secure_renegotiation))
                    ≡ true))
              ⊎ ((ltb 0 s.handshakes
                    && s2.secure_renegotiation
                    && not (same_list server.secure_renegotiation (expected_renegotiation s)))
                  ≡ true))
            ⊎ IsUnasked hello server
          → (server.compression_method ≢ 0) ⊎ IsInsecure server s ⊎ IsUnasked hello server
      reasons (inl (inl (inl (inl never)))) = absurd never
      reasons (inl (inl (inl (inr a)))) = inl (ground (arith, a))
      reasons (inl (inl (inr b))) = inr (inl (inl b))
      reasons (inl (inr d)) = inr (inl (inr (sym later ∙ d)))
      reasons (inr e) = inr (inr e)

      facts :
          ((((Unit {0} × A) × B) × D) × E) → (server.compression_method ≡ 0) × IsSecure server s × E
      facts ((((_, a), b), d), e) = (ground (arith, a), (b, sym later ∙ d), e)

  pub check_hello-IsRefused :
      (hello : ClientHello) (server : ServerHello) (s : ClientState X)
      → mutual_cipher_suite hello.cipher_suites server.cipher_suite ≡ none
      → Gives (IsRefused s.master_secret) (check_hello hello server s)
  unfolding check_hello take_suite
  check_hello-IsRefused hello server s gone = and_then-IsRefused m _ (take_alpn hello server) (
      and_then-IsRefused m _ (later_renegotiation server) (
        and_then-IsRefused m _ (first_renegotiation server) (
          and_then-IsRefused m _ (check_compression server) (
            rw (take_suite, gone)
              (refuse-IsRefused 40 _ (record s { suite = none }) (omega arith))))))
    where
      m : List ℕ
      m = s.master_secret

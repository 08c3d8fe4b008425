-- ===== src/Negotiate/Suites/Server.antt =====
-- handshake_server.go: `pickCipherSuite`, with the alerts that it sends.
use disguise.Alert as Alert
use disguise.Common.{
  ℕ, ◌≡◌, ◌≢◌, ◌<◌, ◌≤◌, ◌⊎◌, refl, subst, sym, ◌∙◌, inl, inr, Bool-cases, Option-cases, Bool, true,
  false, ◌&&◌, Option, none, some, List, ltb, if◌then◌else◌, Outcome, ok, ◌>>=◌, Error, Reason,
  tls_error, no_mutual_suite, bad_fallback, Gives, gives_ok, >>=-Gives, arith,
}
use disguise.Common.Choice.{contains, first_where, IsFirst}
use disguise.Common.Crypto.{Crypto}
use disguise.Conn.{Conn}
use disguise.Conn.Output.{send_alert}
use disguise.Conn.Output.Ends.{send_alert-Gives}
use disguise.Negotiate.{Config}
use disguise.Negotiate.SuiteIds.{tls_fallback_scsv}
use disguise.Negotiate.Suites.{
  CipherSuite, id_of, config_cipher_suites, mutual_cipher_suite, ServerAbilities, preference_list,
  pick_suite,
}
use disguise.Negotiate.Suites.Picked.{is_taken, pick_suite_lem, pick_suite-none}
use disguise.Negotiate.Suites.Wanted.{
  fits, server_order, is_taken-fits, preference_list-server_order, mutual_cipher_suite-fits,
}
use disguise.Negotiate.Versions.{max_supported_version}

-- The loop over the client's suites: `vers` is the version that the client says.
unfoldable pub is_fallback : Bool → Config → ℕ → List ℕ → Bool
is_fallback debug config vers offered =
    contains tls_fallback_scsv offered && ltb vers (max_supported_version debug (some config) false)

-- What the handshake takes for a suite: it is the server's first, and the client finds it too.
abbrev pub IsPick : Bool → Config → ServerAbilities → List ℕ → CipherSuite → Type 0
IsPick hardware config a offered s =
    IsFirst (is_taken (fits a) offered) (server_order hardware config offered) (id_of s)
    × (contains (id_of s) (config_cipher_suites config) ≡ true)
    × (fits a s ≡ true)
    × (mutual_cipher_suite offered (id_of s) ≡ some s)

pick_suite-IsPick :
    (hardware : Bool) (config : Config) (a : ServerAbilities) (offered : List ℕ) (s : CipherSuite)
    → pick_suite hardware config a offered ≡ some s
    → IsPick hardware config a offered s
pick_suite-IsPick hardware config a offered s h =
    let (first, configured, fine, same) = pick_suite_lem hardware config a offered s h in
    (
      subst (λ ids. IsFirst (is_taken (fits a) offered) ids (id_of s))
          (preference_list-server_order hardware config offered)
          (subst (λ p. IsFirst p (preference_list hardware config offered) (id_of s))
            (is_taken-fits a offered) first),
      configured,
      sym (mutual_cipher_suite-fits a offered (id_of s) s same) ∙ fine,
      same,
    )

pick_suite-nowhere :
    (hardware : Bool) (config : Config) (a : ServerAbilities) (offered : List ℕ)
    → pick_suite hardware config a offered ≡ none
    → first_where (is_taken (fits a) offered) (server_order hardware config offered) ≡ none
pick_suite-nowhere hardware config a offered h =
    subst (λ ids. first_where (is_taken (fits a) offered) ids ≡ none)
      (preference_list-server_order hardware config offered)
      (subst (λ p. first_where p (preference_list hardware config offered) ≡ none)
        (is_taken-fits a offered) (pick_suite-none hardware config a offered h))

module _ ⦃C : Crypto⦄ where
  -- The connection and its `cipherSuite`, `hs.suite`, and the error.
  abbrev pub SuiteReply : Type 0
  SuiteReply = Conn × ℕ × Option CipherSuite × Option Error

  -- An alert, and an error.
  unfoldable pub refuse_suite : ℕ → Reason → Option CipherSuite → ℕ → Conn → Outcome SuiteReply
  unfolding send_alert
  refuse_suite code reason s cipher_suite c = do
    (c', sent) ← send_alert c code
    ok (c', cipher_suite, s, some (tls_error reason))

  -- `pickCipherSuite`; `cipher_suite` is the connection's before it.
  unfoldable pub pick_cipher_suite :
      Bool → Bool → Config → ServerAbilities → ℕ → List ℕ → ℕ → Conn → Outcome SuiteReply
  unfolding refuse_suite
  pick_cipher_suite debug hardware config a vers offered cipher_suite c =
      elim (pick_suite hardware config a offered) [
        | none ↦ refuse_suite Alert.handshake_failure no_mutual_suite none cipher_suite c
        | some s ↦
            if is_fallback debug config vers offered
            then refuse_suite Alert.inappropriate_fallback bad_fallback (some s) (id_of s) c
            else ok (c, id_of s, some s, none)
      ]

  -- The error of a refusal, and the suites that it leaves.
  abbrev pub IsRefused : Reason → Option CipherSuite → ℕ → SuiteReply → Type 0
  IsRefused reason s cipher_suite (c', cipher_suite', s', e) =
      (cipher_suite' ≡ cipher_suite) × (s' ≡ s) × (e ≡ some (tls_error reason))

  refuse_suite-IsRefused :
      (code : ℕ) (reason : Reason) (s : Option CipherSuite) (cipher_suite : ℕ) (c : Conn)
      → code ≢ 0
      → Gives (IsRefused reason s cipher_suite) (refuse_suite code reason s cipher_suite c)
  unfolding refuse_suite
  refuse_suite-IsRefused code reason s cipher_suite c other =
      >>=-Gives _ _ (send_alert-Gives c code other) (λ reply p. gives_ok (refl, refl, refl))

  is_fallback-true :
      (debug : Bool) (config : Config) (vers : ℕ) (offered : List ℕ)
      → is_fallback debug config vers offered ≡ true
      → (contains tls_fallback_scsv offered ≡ true)
        × (vers < max_supported_version debug (some config) false)
  unfolding is_fallback
  is_fallback-true debug config vers offered h = (grind (arith, h), ground (arith, h))

  is_fallback-false :
      (debug : Bool) (config : Config) (vers : ℕ) (offered : List ℕ)
      → is_fallback debug config vers offered ≡ false
      → (contains tls_fallback_scsv offered ≡ false)
        ⊎ (max_supported_version debug (some config) false ≤ vers)
  unfolding is_fallback
  is_fallback-false debug config vers offered h =
      elim (Bool-cases (contains tls_fallback_scsv offered)) [
        | inr silent ↦ inl silent
        | inl said ↦ inr (ground (arith, rw (is_fallback, said) at h))
      ]

  -- A server's `pickCipherSuite` picks the suite that is the first in its order of preference,
  -- among those of the configuration, that the client offers and that the server's keys, the
  -- curves and the version allow; the client finds it among those that it offered. The order puts
  -- AES first only where the hardware is for it and the first suite known of those offered is
  -- AES-GCM. The suite becomes the handshake's, and its id the connection's. The rest of the
  -- connection stays as it was, unless the client says that it falls back, to a version below the
  -- highest that the server supports: then, unless the alert panics or waits, an error is
  -- returned. Where there is no such suite, an error is returned too, unless the alert panics or
  -- waits, and the connection's id stays as it was.
  pub pick_cipher_suite_lem :
      (debug hardware : Bool) (config : Config) (a : ServerAbilities) (vers : ℕ) (offered : List ℕ)
      (cipher_suite : ℕ) (c : Conn)
      → ((s : CipherSuite) × IsPick hardware config a offered s
          × ((((contains tls_fallback_scsv offered ≡ false)
                  ⊎ (max_supported_version debug (some config) false ≤ vers))
                × (pick_cipher_suite debug hardware config a vers offered cipher_suite c
                    ≡ ok (c, id_of s, some s, none)))
              ⊎ ((contains tls_fallback_scsv offered ≡ true)
                  × (vers < max_supported_version debug (some config) false)
                  × Gives
                      (IsRefused bad_fallback (some s) (id_of s))
                      (pick_cipher_suite debug hardware config a vers offered cipher_suite c))))
        ⊎ ((first_where (is_taken (fits a) offered) (server_order hardware config offered) ≡ none)
            × Gives
                (IsRefused no_mutual_suite none cipher_suite)
                (pick_cipher_suite debug hardware config a vers offered cipher_suite c))
  unfolding pick_cipher_suite
  pick_cipher_suite_lem debug hardware config a vers offered cipher_suite c =
      elim (Option-cases (pick_suite hardware config a offered)) [
        | inl gone ↦ inr (
          pick_suite-nowhere hardware config a offered gone,
          rw (pick_cipher_suite, gone)
              (refuse_suite-IsRefused 40 no_mutual_suite none cipher_suite c (omega arith)),
        )
        | inr (s, found) ↦
            let picked = pick_suite-IsPick hardware config a offered s found in
            elim (Bool-cases (is_fallback debug config vers offered)) [
              | inl back ↦
                  let (said, below) = is_fallback-true debug config vers offered back in
                  inl (
                    s,
                    picked,
                    inr (
                      said,
                      below,
                      rw (pick_cipher_suite, found, back)
                          (refuse_suite-IsRefused 86 bad_fallback (some s) (id_of s) c
                            (omega arith)),
                    ),
                  )
              | inr fine ↦ inl (
                s,
                picked,
                inl (
                  is_fallback-false debug config vers offered fine,
                  rw (pick_cipher_suite, found, fine) refl,
                ),
              )
            ]
      ]

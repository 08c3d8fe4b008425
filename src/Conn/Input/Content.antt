-- ===== src/Conn/Input/Content.antt =====
-- What `readRecordOrCCS` does with the content of a record.
use disguise.Alert as Alert
use disguise.Common.{
  ℕ, ◌≡◌, ◌⊎◌, inl, inr, refl, sym, ◌∙◌, List, [], ◌∷◌, Bool, true, false, not, ◌&&◌, ◌||◌, none,
  ltb, ◌==◌, if◌then◌else◌, Bool-cases, length, Outcome, ok, Error, is_close_notify, Ends, ends_err,
  err, panic, blocked, out_of_fuel, either, not-==, Gives, gives_ok, gives_panic, gives_blocked,
  >>=-Gives, if-Gives, arith,
}
use disguise.Common.Crypto.{Crypto}
use disguise.Conn.{Conn}
use disguise.Conn.Input.{
  done, retry, reject, reject_error, process_alert, process_ccs, process_application_data,
  process_handshake, process_type, process_record,
}
use disguise.Conn.Output.Ends.{alert_code-Gives, change_cipher_spec-Ends}
use disguise.Record.{
  HalfConn, change_cipher_spec, record_type_alert, record_type_change_cipher_spec,
  record_type_handshake, record_type_application_data, max_plaintext, is_none, version_tls13,
}
use disguise.Conn.Input.Advance.{Same, IsProgress, reject-Gives, retry-Gives, branches}

module _ ⦃C : Crypto⦄ where
  process_alert-Gives :
      (expected : Bool) (c0 c : Conn) (body : List ℕ)
      → Same c0 c
      → c.retry_count ≡ c0.retry_count
      → Gives (IsProgress expected c0) (process_alert c body)
  unfolding process_alert
  process_alert-Gives expected c0 c [] same count = search branches
  process_alert-Gives expected c0 c (a ∷ []) same count = search branches
  process_alert-Gives expected c0 c (level ∷ code ∷ []) same count = search branches depth 10
  process_alert-Gives expected c0 c (a ∷ b ∷ d ∷ rest) same count = search branches

  process_handshake-Gives :
      (expected : Bool) (c0 c : Conn) (body : List ℕ)
      → Same c0 c
      → Gives (IsProgress expected c0) (process_handshake expected c body)
  unfolding process_handshake
  process_handshake-Gives true c0 c body same = elim (Bool-cases (length body == 0)) [
    | inl nothing ↦ rw nothing (reject-Gives true c0 c 10 refl)
    | inr something ↦ rw something (reject-Gives true c0 c 10 refl)
  ]
  process_handshake-Gives false c0 c body same = elim (Bool-cases (length body == 0)) [
    | inl nothing ↦ rw nothing (reject-Gives false c0 c 10 refl)
    | inr something ↦
        rw something (gives_ok (inl (refl, body, ground arith, rw same.hand refl, same.input)))
  ]

  process_application_data-Gives :
      (expected : Bool) (c0 c : Conn) (body : List ℕ)
      → Same c0 c
      → ((length body == 0) ≡ false) ⊎ (c.retry_count ≡ c0.retry_count)
      → Gives (IsProgress expected c0) (process_application_data expected c body)
  unfolding process_application_data
  process_application_data-Gives expected c0 c body same count =
      by_cases c.handshake_complete expected (length body == 0) refl refl refl
    where
      kept :
          (length body == 0) ≡ true
          → ((length body == 0) ≡ false) ⊎ (c.retry_count ≡ c0.retry_count)
          → c.retry_count ≡ c0.retry_count
      kept nothing (inl something) = cc
      kept nothing (inr same_count) = same_count

      by_cases :
          (complete unwanted nothing : Bool)
          → c.handshake_complete ≡ complete
          → expected ≡ unwanted
          → (length body == 0) ≡ nothing
          → Gives (IsProgress expected c0) (
              if not complete || unwanted
              then reject c 10
              else if nothing
              then ok (retry c)
              else ok (done (record c { input = body }, none)))
      by_cases false unwanted nothing e1 e2 e3 = reject-Gives expected c0 c 10 refl
      by_cases true true nothing e1 e2 e3 = reject-Gives expected c0 c 10 refl
      by_cases true false true e1 e2 e3 = retry-Gives expected c0 c same (kept e3 count)
      by_cases true false false e1 e2 e3 =
          gives_ok (inr (inr (e2, sym same.complete ∙ e1, same.hand, ground arith)))

  pub reject_error-Gives :
      (expected : Bool) (c0 c : Conn) (e : Error)
      → is_close_notify e ≡ false
      → Gives (IsProgress expected c0) (reject_error c e)
  unfolding reject_error
  reject_error-Gives expected c0 c e other =
      >>=-Gives _ _ (alert_code-Gives e other)
        (λ code p. reject-Gives expected c0 c code (not-== p))

  changed-Gives :
      (c0 c : Conn) (o : Outcome HalfConn)
      → Same c0 c
      → change_cipher_spec c.incoming ≡ o
      → Ends o
      → Gives
          (IsProgress true c0)
          (either o (λ hc. ok (done (record c { incoming = hc }, none))) (reject_error c))
  changed-Gives c0 c (ok hc) same is h =
      gives_ok (inr (inl (refl, c.incoming, is, same.hand, same.input)))
  changed-Gives c0 c (err e) same is (ends_err other) = reject_error-Gives true c0 c e other
  changed-Gives c0 c panic same is h = gives_panic
  changed-Gives c0 c blocked same is h = gives_blocked
  changed-Gives c0 c out_of_fuel same is h = elim h [ ]

  process_ccs-Gives :
      (expected : Bool) (c0 c : Conn) (body : List ℕ)
      → Same c0 c
      → c.retry_count ≡ c0.retry_count
      → Gives (IsProgress expected c0) (process_ccs expected c body)
  unfolding process_ccs
  process_ccs-Gives false c0 c body same count = search branches depth 12
  process_ccs-Gives true c0 c body same count =
      let change = changed-Gives c0 c _ same refl (change_cipher_spec-Ends c.incoming) in
      search (branches, change) depth 12

  process_type-Gives :
      (expected : Bool) (c0 c : Conn) (body : List ℕ) (type : ℕ)
      → Same c0 c
      → c.retry_count ≡ c0.retry_count
      → Gives (IsProgress expected c0) (process_type expected c body type)
  unfolding process_type
  process_type-Gives expected c0 c body type same count =
      if-Gives _ _ _ (process_alert-Gives expected c0 c body same count) (
        if-Gives _ _ _ (process_ccs-Gives expected c0 c body same count) (
          if-Gives _ _ _ (process_application_data-Gives expected c0 c body same (inr count)) (
            if-Gives _ _ _ (process_handshake-Gives expected c0 c body same)
              (reject-Gives expected c0 c 10 refl))))

  -- For a record that resets the count.
  process_type-advancing :
      (expected : Bool) (c0 c : Conn) (body : List ℕ) (type : ℕ)
      → Same c0 c
      → (not (type == record_type_alert)
          && not (type == record_type_change_cipher_spec)
          && ltb 0 (length body))
        ≡ true
      → Gives (IsProgress expected c0) (process_type expected c body type)
  unfolding process_type
  process_type-advancing expected c0 c body type same advances =
      let e1 : (type == record_type_alert) ≡ false = ground (arith, advances) in
      let e2 : (type == record_type_change_cipher_spec) ≡ false = ground (arith, advances) in
      let e3 : (length body == 0) ≡ false = ground (arith, advances) in
      rw (e1, e2)
        (if-Gives _ _ _ (process_application_data-Gives expected c0 c body same (inl e3)) (
          if-Gives _ _ _ (process_handshake-Gives expected c0 c body same)
            (reject-Gives expected c0 c 10 refl)))

  pub process_record-Gives :
      (expected : Bool) (c0 c : Conn) (body : List ℕ) (type : ℕ)
      → Same c0 c
      → c.retry_count ≡ c0.retry_count
      → Gives (IsProgress expected c0) (process_record expected c body type)
  unfolding process_record
  process_record-Gives expected c0 c body type same count = by_cases _ refl
    where
      counted : ℕ → Conn
      counted n = record c { retry_count = n }

      same' : (n : ℕ) → Same c0 (counted n)
      same' n = record { hand = same.hand; complete = same.complete; input = same.input }

      by_cases :
          (advances : Bool)
          → (not (type == record_type_alert)
              && not (type == record_type_change_cipher_spec)
              && ltb 0 (length body))
            ≡ advances
          → let c' = record c { retry_count = if advances then 0 else c.retry_count } in
            Gives (IsProgress expected c0) (
              if ltb max_plaintext (length body)
              then reject c Alert.record_overflow
              else if is_none c.incoming.cipher && type == record_type_application_data
              then reject c Alert.unexpected_message
              else if c.sender.vers == version_tls13
                  && not (type == record_type_handshake)
                  && ltb 0 (length c.hand)
              then reject c' Alert.unexpected_message
              else process_type expected c' body type)
      by_cases true resets = if-Gives _ _ _ (reject-Gives expected c0 c 22 refl) (
          if-Gives _ _ _ (reject-Gives expected c0 c 10 refl) (
            if-Gives _ _ _ (reject-Gives expected c0 (counted 0) 10 refl)
              (process_type-advancing expected c0 (counted 0) body type (same' 0) resets)))
      by_cases false keeps = if-Gives _ _ _ (reject-Gives expected c0 c 22 refl) (
          if-Gives _ _ _ (reject-Gives expected c0 c 10 refl) (
            if-Gives _ _ _ (reject-Gives expected c0 (counted c.retry_count) 10 refl) (
              process_type-Gives expected c0 (counted c.retry_count) body type (same' c.retry_count)
                count)))

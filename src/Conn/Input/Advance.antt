-- ===== src/Conn/Input/Advance.antt =====
-- What `readRecordOrCCS` does to a connection when it returns.
use disguise.Alert as Alert
use disguise.Common.{
  ℕ, ◌+◌, ◌-◌, ◌*◌, ◌≤◌, ◌≡◌, ◌⊎◌, inl, inr, refl, sym, ◌∙◌, List, [], ◌∷◌, ◌++◌, Bool, true, false,
  not, ◌&&◌, ◌||◌, Option, none, some, ltb, ◌==◌, if◌then◌else◌, Bool-cases, length, get_or, drop,
  Outcome, ok, Error, pending_data, is_close_notify, Ends, ends_err, err, panic, blocked,
  out_of_fuel, either, not-==, Gives, gives_ok, gives_panic, gives_blocked, giving, Always,
  >>=-Gives, either-Gives, if-Gives, on_error-Gives, arith,
}
use disguise.Common.Crypto.{Crypto}
use disguise.Conn.{Conn, Reply, set_in_error}
use disguise.Conn.Input.{
  read_from, at_least_error, Progress, done, retry, read_from_until, reject, refuse_header, ended,
  reads_on, ends, Ended, unless_ended,
}
use disguise.Conn.Output.Ends.{send_alert-Gives}
use disguise.Record.{HalfConn, change_cipher_spec, set_error_locked}

read_from-Always :
    (reads : List (List ℕ × Option Error)) (needs : ℕ) (raw : List ℕ)
    → Gives Always (read_from reads needs raw)
unfolding read_from
read_from-Always [] needs raw = gives_blocked
read_from-Always ((bytes, e) ∷ reads) needs raw =
    stops (ended (at_least_error (needs - length bytes) e))
      (read_from-Always reads (needs - length bytes) (raw ++ bytes))
  where
    stops :
        (how : Ended)
        → Gives Always (read_from reads (needs - length bytes) (raw ++ bytes))
        → Gives Always (
            unless_ended how
              (λ failed. ok (reads, raw ++ bytes, failed))
              (read_from reads (needs - length bytes) (raw ++ bytes)))
    stops reads_on h = h
    stops (ends failed) h = gives_ok tt

module _ ⦃C : Crypto⦄ where
  -- What a record that is passed over leaves as it was.
  pub record Same (c0 c : Conn) : Type 0 where
    pub hand : c.hand ≡ c0.hand
    pub complete : c.handshake_complete ≡ c0.handshake_complete
    pub input : length c.input ≡ 0

  -- The handshake data grow, the cipher changes, or application data are there to read.
  abbrev pub IsAdvance : Bool → Conn → Conn → Type 0
  IsAdvance expected c0 c =
      ((expected ≡ false)
        × (body : List ℕ) × (1 ≤ length body)
        × (c.hand ≡ c0.hand ++ body)
        × (length c.input ≡ 0))
      ⊎ (((expected ≡ true)
            × (hc : HalfConn) × (change_cipher_spec hc ≡ ok c.incoming)
            × (c.hand ≡ c0.hand)
            × (length c.input ≡ 0))
          ⊎ ((expected ≡ false)
              × (c0.handshake_complete ≡ true)
              × (c.hand ≡ c0.hand)
              × (1 ≤ length c.input)))

  abbrev pub IsAnswer : Bool → Conn → Reply → Type 0
  IsAnswer expected c0 (c, none) = IsAdvance expected c0 c
  IsAnswer expected c0 (c, some e) = Unit {0}

  abbrev pub IsProgress : Bool → Conn → Progress → Type 0
  IsProgress expected c0 (done reply) = IsAnswer expected c0 reply
  IsProgress expected c0 (retry c) = Same c0 c × (c.retry_count ≡ c0.retry_count)

  pub read_from_until-Same :
      (c0 c : Conn) (n : ℕ)
      → Same c0 c
      → Gives
          (λ reply. Same c0 reply.0 × (reply.0.retry_count ≡ c.retry_count))
          (read_from_until c n)
  unfolding read_from_until
  read_from_until-Same c0 c n same = if-Gives _ _ _ (gives_ok (same, refl)) (
      >>=-Gives _ _ (read_from-Always c.reads (n - length c.raw_input) c.raw_input) (λ x p.
        gives_ok (record { hand = same.hand; complete = same.complete; input = same.input }, refl)))

  pub reject-Gives :
      (expected : Bool) (c0 c : Conn) (code : ℕ)
      → (code == Alert.close_notify) ≡ false
      → Gives (IsProgress expected c0) (reject c code)
  unfolding reject set_in_error set_error_locked
  reject-Gives expected c0 c code other =
      >>=-Gives _ _ (send_alert-Gives c code (ground arith)) (λ reply (e, is). rw is (gives_ok tt))

  pub refuse_header-Gives :
      (expected : Bool) (c0 c : Conn) (code : ℕ)
      → (code == Alert.close_notify) ≡ false
      → Gives (IsProgress expected c0) (refuse_header c code)
  unfolding refuse_header set_in_error set_error_locked
  refuse_header-Gives expected c0 c code other =
      >>=-Gives _ _ (send_alert-Gives c code (ground arith)) (λ reply p. gives_ok tt)

  pub fail-Gives :
      (expected : Bool) (c0 c : Conn) (e : Error)
      → Gives (IsProgress expected c0) (ok (done (set_in_error c (some e))))
  unfolding set_in_error set_error_locked
  fail-Gives expected c0 c e = gives_ok tt

  pub retry-Gives :
      (expected : Bool) (c0 c : Conn)
      → Same c0 c
      → c.retry_count ≡ c0.retry_count
      → Gives (IsProgress expected c0) (ok (retry c))
  retry-Gives expected c0 c same count = gives_ok (same, count)

  pub ruleset branches = (refl, giving, fail-Gives, retry-Gives, reject-Gives, refuse_header-Gives)

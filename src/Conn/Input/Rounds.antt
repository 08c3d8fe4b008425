-- ===== src/Conn/Input/Rounds.antt =====
-- `readRecordOrCCS` with its retries: it ends, and does one thing.
use disguise.Common.{
  ℕ, zero, suc, ◌+◌, ◌≤◌, ◌<◌, ◌≢◌, ◌⊎◌, inl, inr, sym, ◌∙◌, Bool, none, some, ltb, Bool-cases,
  ltb→lt, lt→ltb, out_of_fuel, Gives, gives_ok, >>=-Gives, if-Gives, Gives-map, Gives-ends, arith,
}
use disguise.Common.Crypto.{Crypto}
use disguise.Conn.{Conn, Reply, set_in_error}
use disguise.Conn.Input.{
  Progress, done, retry, give_up, next_round, unless_done, read_rounds, read_record_or_ccs,
  max_useless_records,
}
use disguise.Conn.Input.Advance.{Same, IsAnswer, IsProgress}
use disguise.Conn.Input.Receive.{receive-Gives}
use disguise.Conn.Output.Ends.{send_alert-Gives}

module _ ⦃C : Crypto⦄ where
  -- The connection after the retries before a round has the handshake data that it had first.
  Same-IsAnswer :
      (expected : Bool) (c0 c : Conn) (reply : Reply)
      → Same c0 c
      → IsAnswer expected c reply
      → IsAnswer expected c0 reply
  Same-IsAnswer expected c0 c (c', some e) same h = tt
  Same-IsAnswer expected c0 c (c', none) same (inl (e, body, some_left, grown, nothing)) =
      inl (e, body, some_left, rw⁻¹ same.hand grown, nothing)
  Same-IsAnswer expected c0 c (c', none) same (inr (inl (e, hc, changed, kept, nothing))) =
      inr (inl (e, hc, changed, kept ∙ same.hand, nothing))
  Same-IsAnswer expected c0 c (c', none) same (inr (inr (e, complete, kept, something))) =
      inr (inr (e, sym same.complete ∙ complete, kept ∙ same.hand, something))

  give_up-Gives : (expected : Bool) (c0 c : Conn) → Gives (IsAnswer expected c0) (give_up c)
  unfolding give_up set_in_error
  give_up-Gives expected c0 c =
      >>=-Gives _ _ (send_alert-Gives c 10 (omega arith)) (λ reply p. gives_ok tt)

  next_round-Gives :
      (fuel : ℕ) (expected : Bool) (c0 c : Conn)
      → Same c0 c
      → ((max_useless_records < suc c.retry_count)
          ⊎ Gives
              (IsAnswer expected (record c { retry_count = suc c.retry_count }))
              (read_rounds fuel expected (record c { retry_count = suc c.retry_count })))
      → Gives (IsAnswer expected c0) (next_round (read_rounds fuel expected) c)
  unfolding next_round
  next_round-Gives fuel expected c0 c same (inl many) =
      rw (lt→ltb max_useless_records (suc c.retry_count) many)
        (give_up-Gives expected c0 (record c { retry_count = suc c.retry_count }))
  next_round-Gives fuel expected c0 c same (inr again) =
      let counted = record c { retry_count = suc c.retry_count } in
      let same' : Same c0 counted = record {
        hand = same.hand;
        complete = same.complete;
        input = same.input;
      } in
      if-Gives _ _ _ (give_up-Gives expected c0 counted)
        (Gives-map again (λ reply h. Same-IsAnswer expected c0 counted reply same' h))

  pub rounds-Gives :
      (fuel : ℕ) (expected : Bool) (c : Conn)
      → max_useless_records + 2 ≤ fuel + c.retry_count
      → 1 ≤ fuel
      → Gives (IsAnswer expected c) (read_rounds fuel expected c)
  unfolding read_rounds
  rounds-Gives zero expected c enough positive = absurd (omega arith)
  rounds-Gives (suc fuel) expected c enough positive =
      >>=-Gives _ _ (receive-Gives expected c)
        (λ p is. by_cases (λ c' h k. rounds-Gives fuel expected c' h k) p is)
    where
      by_cases :
          ((c' : Conn)
            → max_useless_records + 2 ≤ fuel + c'.retry_count
            → 1 ≤ fuel
            → Gives (IsAnswer expected c') (read_rounds fuel expected c'))
          → (p : Progress) → IsProgress expected c p
          → Gives (IsAnswer expected c) (unless_done p (next_round (read_rounds fuel expected)))
      by_cases again (done reply) is = gives_ok is
      by_cases again (retry c') (same, count) =
          next_round-Gives fuel expected c c' same
            (elim (Bool-cases (ltb max_useless_records (suc c'.retry_count))) [
              | inl many ↦ inl (ltb→lt max_useless_records (suc c'.retry_count) many)
              | inr few ↦ inr (
                  again (record c' { retry_count = suc c'.retry_count }) (omega (arith, count))
                    (ground (arith, count)))
            ])

  -- `readRecordOrCCS` calls itself through `retryReadRecord` so seldom that 18 rounds, less the
  -- count of useless records so far, do not run out, whatever arrives; one round is needed at
  -- least.
  pub read_rounds-ends :
      (fuel : ℕ) (expected : Bool) (c : Conn)
      → max_useless_records + 2 ≤ fuel + c.retry_count
      → 1 ≤ fuel
      → read_rounds fuel expected c ≢ out_of_fuel
  read_rounds-ends fuel expected c enough positive =
      Gives-ends (read_rounds fuel expected c) (rounds-Gives fuel expected c enough positive)

  -- `readRecordOrCCS` of any connection panics, waits for the network, or returns. If it returns
  -- no error it has done exactly one thing: without an expected change of the cipher the handshake
  -- data have grown by at least one byte, or, after the handshake, there is application data to
  -- read; where the change is expected `changeCipherSpec` has succeeded. In the last two cases the
  -- handshake data stay, and in all but the second there is no application data to read.
  pub read_record_or_ccs-IsAnswer :
      (expected : Bool) (c : Conn) → Gives (IsAnswer expected c) (read_record_or_ccs expected c)
  unfolding read_record_or_ccs
  read_record_or_ccs-IsAnswer expected c = rounds-Gives 18 expected c (omega arith) (omega arith)

-- ===== src/Conn/Input/Receive.antt =====
-- What a round of `readRecordOrCCS` does.
use disguise.Common.{
  ℕ, ◌+◌, ◌*◌, ◌≡◌, refl, ◌∙◌, Bool, true, false, not, ◌==◌, if◌then◌else◌, length, get_or, drop,
  Error, pending_data, Gives, gives_ok, >>=-Gives, either-Gives, on_error-Gives, arith,
}
use disguise.Common.Crypto.{Crypto}
use disguise.Conn.{Conn, set_in_error}
use disguise.Conn.Input.{
  read_from_until, open_record, read_body, receive, at_boundary, fail_read, fail, read_header,
}
use disguise.Record.{}
use disguise.Record.Protect.Ends.{decrypt-Ends}
use disguise.Conn.Input.Advance.{Same, IsProgress, read_from_until-Same, fail-Gives, branches}
use disguise.Conn.Input.Content.{process_record-Gives, reject_error-Gives}

module _ ⦃C : Crypto⦄ where
  opened-Gives :
      (expected : Bool) (c0 c : Conn) (n : ℕ)
      → Same c0 c
      → c.retry_count ≡ c0.retry_count
      → Gives (IsProgress expected c0) (open_record expected c n)
  unfolding open_record
  opened-Gives expected c0 c n same count =
      either-Gives _ _ _ (decrypt-Ends c.incoming _)
        (λ (body, type, hc).
          process_record-Gives expected c0
            (record c { raw_input = drop (5 + n) c.raw_input; incoming = hc }) body type
            (record { hand = same.hand; complete = same.complete; input = same.input }) count)
        (λ e other.
          reject_error-Gives expected c0 (record c { raw_input = drop (5 + n) c.raw_input }) e
            other)

  fail_read-Gives :
      (expected : Bool) (c0 c : Conn) (e : Error) → Gives (IsProgress expected c0) (fail_read c e)
  unfolding set_in_error
  fail_read-Gives expected c0 c e = gives_ok tt

  read_body-Gives :
      (expected : Bool) (c0 c : Conn)
      → Same c0 c
      → c.retry_count ≡ c0.retry_count
      → Gives (IsProgress expected c0) (read_body expected c)
  unfolding read_body
  read_body-Gives expected c0 c same count =
      let n = get_or c.raw_input 3 0 * 256 + get_or c.raw_input 4 0 in
      let rest =
        >>=-Gives (read_from_until c (5 + n)) _ (read_from_until-Same c0 c (5 + n) same) (λ reply p.
          on_error-Gives reply.1 _ _ (λ e. fail_read-Gives expected c0 reply.0 e)
            (opened-Gives expected c0 reply.0 n p.0 (p.1 ∙ count))) in
      search (branches, rest) depth 14

  read_header-Gives :
      (expected : Bool) (c : Conn)
      → length c.input ≡ 0
      → Gives (IsProgress expected c) (read_header expected c)
  unfolding read_header
  read_header-Gives expected c none_left =
      >>=-Gives (read_from_until c 5) _
        (read_from_until-Same c c 5 (record { hand = refl; complete = refl; input = none_left }))
        (λ reply p.
          on_error-Gives reply.1 _ _
            (λ e. fail_read-Gives expected c reply.0 (at_boundary e reply.0.raw_input))
            (read_body-Gives expected c reply.0 p.0 p.1))

  pub receive-Gives :
      (expected : Bool) (c : Conn) → Gives (IsProgress expected c) (receive expected c)
  unfolding receive
  receive-Gives expected c =
      on_error-Gives c.incoming.failed _ _ (λ e. gives_ok tt) (by_cases (length c.input == 0) refl)
    where
      by_cases :
          (nothing : Bool)
          → (length c.input == 0) ≡ nothing
          → Gives
              (IsProgress expected c)
              (if not nothing then fail c pending_data else read_header expected c)
      by_cases false e = fail-Gives expected c c pending_data
      by_cases true e = read_header-Gives expected c (ground arith)

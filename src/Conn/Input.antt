-- ===== src/Conn/Input.antt =====
-- The reading side of conn.go: `readFromUntil`, `readRecordOrCCS` and `retryReadRecord`.
pub mod Advance
pub mod Content
pub mod Receive
pub mod Rounds
use disguise.Alert as Alert
use disguise.Common.{
  ℕ, zero, suc, ◌+◌, ◌-◌, ◌*◌, ◌<◌, List, [], ◌∷◌, ◌++◌, Bool, true, false, not, ◌&&◌, ◌||◌, ltb,
  leb, ◌==◌, if◌then◌else◌, Option, none, some, length, get_or, take, drop, Outcome, ok, blocked,
  out_of_fuel, ◌>>=◌, either, on_error, Error, eof, unexpected_eof, network, remote_error,
  bad_record_header, pending_data, too_many_ignored,
}
use disguise.Common.Crypto.{Crypto}
use disguise.Conn.{Conn, Reply, set_in_error}
use disguise.Conn.Output.{alert_code, is_nil, send_alert}
use disguise.Record.{
  is_none, max_plaintext, record_header_len, change_cipher_spec, record_type_change_cipher_spec,
  record_type_alert, record_type_handshake, record_type_application_data, version_tls13,
}
use disguise.Record.Protect.{decrypt}

abbrev pub max_useless_records : ℕ
max_useless_records = 16

abbrev pub max_ciphertext : ℕ
max_ciphertext = 18432

abbrev pub max_ciphertext_tls13 : ℕ
max_ciphertext_tls13 = 16640

-- What `atLeastReader.Read` makes of the error of a read, with the bytes that are still needed.
unfoldable pub at_least_error : ℕ → Option Error → Option Error
at_least_error needs none = if needs == 0 then some eof else none
at_least_error needs (some eof) = if needs == 0 then some eof else some unexpected_eof
at_least_error needs (some e) = some e

-- What `ReadFrom` does with that: it reads on, or ends with an error or without one.
pub data Ended : Type 0 where
  reads_on : Ended
  ends : Option Error → Ended

abbrev pub ended : Option Error → Ended
ended none = reads_on
ended (some eof) = ends none
ended (some e) = ends (some e)

abbrev pub unless_ended {ℓ} :
    {A : Type ℓ} → Ended → (Option Error → Outcome A) → Outcome A → Outcome A
unless_ended reads_on stop rest = rest
unless_ended (ends failed) stop rest = stop failed

-- `rawInput.ReadFrom(&atLeastReader{r, needs})` on the results of the reads: what is left of them, the input
-- and the error.
unfoldable pub read_from :
    List (List ℕ × Option Error)
    → ℕ
    → List ℕ
    → Outcome (List (List ℕ × Option Error) × List ℕ × Option Error)
unfolding at_least_error
read_from [] needs raw = blocked
read_from ((bytes, e) ∷ reads) needs raw =
    let rest = read_from reads (needs - length bytes) (raw ++ bytes) in
    unless_ended (ended (at_least_error (needs - length bytes) e))
      (λ failed. ok (reads, raw ++ bytes, failed)) rest

-- A `net.Error` that is temporary, after which the connection can go on.
abbrev pub is_temporary : Error → Bool
is_temporary (network temporary) = temporary
is_temporary e = false

-- An early end at the boundary of a record.
abbrev pub at_boundary : Error → List ℕ → Error
at_boundary unexpected_eof [] = eof
at_boundary e raw = e

module _ ⦃C : Crypto⦄ where
  -- A round of `readRecordOrCCS` ends the call or asks for another record.
  pub data Progress : Type 0 where
    done : Reply → Progress
    retry : Conn → Progress

  unfoldable pub read_from_until : Conn → ℕ → Outcome Reply
  unfolding read_from
  read_from_until c n =
      let filled : Outcome Reply = do
        (reads, raw, e) ← read_from c.reads (n - length c.raw_input) c.raw_input
        ok (record c { reads = reads; raw_input = raw }, e)
      in if leb n (length c.raw_input) then ok (c, none) else filled

  -- `return c.in.setErrorLocked(e)`.
  abbrev pub fail : Conn → Error → Outcome Progress
  fail c e = ok (done (set_in_error c (some e)))

  -- `return c.in.setErrorLocked(c.sendAlert(code))`.
  unfoldable pub reject : Conn → ℕ → Outcome Progress
  unfolding send_alert set_in_error
  reject c code = do (c', e) ← send_alert c code; ok (done (set_in_error c' e))

  -- `return c.in.setErrorLocked(c.sendAlert(err.(alert)))`.
  unfoldable pub reject_error : Conn → Error → Outcome Progress
  unfolding reject
  reject_error c e = do code ← alert_code e; reject c code

  -- An alert, and then an error of the header.
  unfoldable pub refuse_header : Conn → ℕ → Outcome Progress
  unfolding send_alert
  refuse_header c code = do (c', e) ← send_alert c code; fail c' bad_record_header

  unfoldable pub process_alert : Conn → List ℕ → Outcome Progress
  unfolding reject
  process_alert c (level ∷ code ∷ []) =
      if code == Alert.close_notify
      then fail c eof
      else if c.sender.vers == version_tls13
      then fail c (remote_error code)
      else if level == Alert.level_warning
      then ok (retry c)
      else if level == Alert.level_error
      then fail c (remote_error code)
      else reject c Alert.unexpected_message
  process_alert c body = reject c Alert.unexpected_message

  unfoldable pub process_ccs : Bool → Conn → List ℕ → Outcome Progress
  unfolding reject reject_error
  process_ccs expected c body =
      let changed : Outcome Progress =
        either (change_cipher_spec c.incoming) (λ hc. ok (done (record c { incoming = hc }, none)))
          (reject_error c) in
      if not (length body == 1 && get_or body 0 0 == 1)
      then reject c Alert.decode_error
      else if ltb 0 (length c.hand)
      then reject c Alert.unexpected_message
      else if c.sender.vers == version_tls13
      then ok (retry c)
      else if not expected
      then reject c Alert.unexpected_message
      else changed

  unfoldable pub process_application_data : Bool → Conn → List ℕ → Outcome Progress
  unfolding reject
  process_application_data expected c body =
      if not c.handshake_complete || expected
      then reject c Alert.unexpected_message
      else if length body == 0
      then ok (retry c)
      else ok (done (record c { input = body }, none))

  unfoldable pub process_handshake : Bool → Conn → List ℕ → Outcome Progress
  unfolding reject
  process_handshake expected c body =
      if length body == 0 || expected
      then reject c Alert.unexpected_message
      else ok (done (record c { hand = c.hand ++ body }, none))

  -- The switch on the type.
  unfoldable pub process_type : Bool → Conn → List ℕ → ℕ → Outcome Progress
  process_type expected c body type =
      if type == record_type_alert
      then process_alert c body
      else if type == record_type_change_cipher_spec
      then process_ccs expected c body
      else if type == record_type_application_data
      then process_application_data expected c body
      else if type == record_type_handshake
      then process_handshake expected c body
      else reject c Alert.unexpected_message

  -- What is done with the content of a record.
  unfoldable pub process_record : Bool → Conn → List ℕ → ℕ → Outcome Progress
  process_record expected c body type =
      let advances =
        not (type == record_type_alert)
        && not (type == record_type_change_cipher_spec)
        && ltb 0 (length body) in
      let c' = record c { retry_count = if advances then 0 else c.retry_count } in
      if ltb max_plaintext (length body)
      then reject c Alert.record_overflow
      else if is_none c.incoming.cipher && type == record_type_application_data
      then reject c Alert.unexpected_message
      else if c.sender.vers == version_tls13
          && not (type == record_type_handshake)
          && ltb 0 (length c.hand)
      then reject c' Alert.unexpected_message
      else process_type expected c' body type

  -- The record in `rawInput`, of `n` bytes after the header.
  unfoldable pub open_record : Bool → Conn → ℕ → Outcome Progress
  open_record expected c n =
      let c' = record c { raw_input = drop (record_header_len + n) c.raw_input } in
      either (decrypt c.incoming (take (record_header_len + n) c.raw_input))
        (λ (body, type, hc). process_record expected (record c' { incoming = hc }) body type)
        (reject_error c')

  abbrev pub fail_read : Conn → Error → Outcome Progress
  fail_read c e = ok (done (if is_temporary e then c else (set_in_error c (some e)).0, some e))

  -- The header in `rawInput`, and the rest of the record.
  unfoldable pub read_body : Bool → Conn → Outcome Progress
  read_body expected c =
      let type = get_or c.raw_input 0 0 in
      let vers = get_or c.raw_input 1 0 * 256 + get_or c.raw_input 2 0 in
      let n = get_or c.raw_input 3 0 * 256 + get_or c.raw_input 4 0 in
      let body : Outcome Progress = do
        (c', e) ← read_from_until c (record_header_len + n)
        on_error e (fail_read c') (open_record expected c' n)
      in if not c.handshake_complete && type == 128
        then refuse_header c Alert.protocol_version
        else if c.have_vers && not (c.sender.vers == version_tls13) && not (vers == c.sender.vers)
        then refuse_header c Alert.protocol_version
        else if not c.have_vers
            && (not (type == record_type_alert) && not (type == record_type_handshake)
                || leb 4096 vers)
        then fail c bad_record_header
        else if c.sender.vers == version_tls13 && ltb max_ciphertext_tls13 n || ltb max_ciphertext n
        then refuse_header c Alert.record_overflow
        else body

  -- Reading a record, from its header on.
  unfoldable pub read_header : Bool → Conn → Outcome Progress
  read_header expected c = do
    (c', e) ← read_from_until c record_header_len
    on_error e (λ e'. fail_read c' (at_boundary e' c'.raw_input)) (read_body expected c')

  -- One round of `readRecordOrCCS`.
  unfoldable pub receive : Bool → Conn → Outcome Progress
  receive expected c =
      on_error c.incoming.failed (λ e. ok (done (c, some e)))
        (if not (length c.input == 0) then fail c pending_data else read_header expected c)

  abbrev pub unless_done : Progress → (Conn → Outcome Reply) → Outcome Reply
  unless_done (done reply) again = ok reply
  unless_done (retry c) again = again c

  -- The end of `retryReadRecord`.
  unfoldable pub give_up : Conn → Outcome Reply
  give_up c = do
    (c', e) ← send_alert c Alert.unexpected_message
    ok (set_in_error c' (some too_many_ignored))

  -- `retryReadRecord`, given what reads the next record.
  unfoldable pub next_round : (Conn → Outcome Reply) → Conn → Outcome Reply
  next_round again c =
      let counted = record c { retry_count = suc c.retry_count } in
      if ltb max_useless_records counted.retry_count then give_up counted else again counted

  -- `readRecordOrCCS`, on fuel.
  unfoldable pub read_rounds : ℕ → Bool → Conn → Outcome Reply
  read_rounds zero expected c = out_of_fuel
  read_rounds (suc fuel) expected c = do
    p ← receive expected c
    unless_done p (next_round (read_rounds fuel expected))

  unfoldable pub read_record_or_ccs : Bool → Conn → Outcome Reply
  read_record_or_ccs expected c = read_rounds (max_useless_records + 1 + 1) expected c

  unfoldable pub read_record : Conn → Outcome Reply
  read_record c = read_record_or_ccs false c

  unfoldable pub read_change_cipher_spec : Conn → Outcome Reply
  read_change_cipher_spec c = read_record_or_ccs true c

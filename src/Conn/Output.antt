-- ===== src/Conn/Output.antt =====
-- The writing side of conn.go: `write`, `flush`, `writeRecordLocked` and `sendAlertLocked`.
pub mod Ends
use disguise.Alert as Alert
use disguise.Common.{
  ℕ, zero, suc, ◌+◌, ◌/◌, ◌%◌, List, [], ◌∷◌, ◌++◌, Bool, true, false, not, ◌&&◌, ◌||◌, ltb, ◌==◌,
  if◌then◌else◌, Option, none, some, length, take, drop, Outcome, ok, or_panic, out_of_fuel, ◌>>=◌,
  either, Error, alert, local_error,
}
use disguise.Common.Crypto.{Crypto}
use disguise.Conn.{Conn, Reply, with_out, set_out_error, net_write}
use disguise.Record.{
  HalfConn, change_cipher_spec, record_type_change_cipher_spec, record_type_alert, version_tls13,
}
use disguise.Record.Protect.{encrypt}
use disguise.Record.Sizes.{max_payload_size_for_write}

abbrev pub version_tls10 : ℕ
version_tls10 = 769

abbrev pub version_tls12 : ℕ
version_tls12 = 771

-- The version that a record is sent with.
unfoldable pub wire_version : ℕ → ℕ
wire_version vers =
    if vers == 0 then version_tls10 else if vers == version_tls13 then version_tls12 else vers

unfoldable pub record_header : ℕ → ℕ → ℕ → List ℕ
unfolding wire_version
record_header type vers m =
    type ∷ wire_version vers / 256 % 256 ∷ wire_version vers % 256 ∷ m / 256 % 256 ∷ m % 256 ∷ []

-- The code of an error that is an alert.
abbrev alert_of : Error → Option ℕ
alert_of (alert code) = some code
alert_of e = none

abbrev pub alert_code : Error → Outcome ℕ
alert_code e = or_panic (alert_of e)

abbrev pub is_nil : Option Error → Bool
is_nil none = true
is_nil (some e) = false

-- The level of `sendAlertLocked`.
unfoldable pub level : ℕ → ℕ
level code =
    if code == Alert.no_renegotiation || code == Alert.close_notify
    then Alert.level_warning
    else Alert.level_error

module _ ⦃C : Crypto⦄ where
  abbrev pub add_bytes_sent : Conn → ℕ → Conn
  add_bytes_sent c n = record c {
    sender = record c.sender { bytes_sent = c.sender.bytes_sent + n };
  }

  unfoldable pub write : Conn → List ℕ → Outcome (Conn × ℕ × Option Error)
  unfolding net_write
  write c bytes =
      let direct : Outcome (Conn × ℕ × Option Error) = do
        (c', n, e) ← net_write c bytes
        ok (add_bytes_sent c' n, n, e)
      in if c.buffering
        then ok (record c { send_buf = c.send_buf ++ bytes }, length bytes, none)
        else direct

  unfoldable pub flush : Conn → Outcome (Conn × ℕ × Option Error)
  unfolding net_write
  flush c =
      let direct : Outcome (Conn × ℕ × Option Error) = do
        (c', n, e) ← net_write c c.send_buf
        ok (record (add_bytes_sent c' n) { send_buf = []; buffering = false }, n, e)
      in if length c.send_buf == 0 then ok (c, 0, none) else direct

  -- One record of `writeRecordLocked`.
  unfoldable pub write_one : Conn → ℕ → List ℕ → Outcome Reply
  unfolding write record_header
  write_one c type payload =
      let header = record_header type c.sender.vers (length payload) in
      either (encrypt c.sender.out header payload (c.draws c.drawn))
        (λ (sealed, hc). do
          (c', n, e) ← write (record (with_out c hc) { drawn = suc c.drawn }) sealed
          ok (c', e))
        (λ e. ok (record c { drawn = suc c.drawn }, some e))

  -- The loop of `writeRecordLocked`, on fuel: `n` bytes are written.
  unfoldable pub write_loop : ℕ → Conn → ℕ → ℕ → List ℕ → Outcome (Conn × ℕ × Option Error)
  unfolding write_one
  write_loop zero c type n bytes = if length bytes == 0 then ok (c, n, none) else out_of_fuel
  write_loop (suc fuel) c type n bytes =
      let written : Outcome (Conn × ℕ × Option Error) = do
        (most, sender) ← max_payload_size_for_write c.sender type
        let m = if ltb most (length bytes) then most else length bytes
        (c', e) ← write_one (record c { sender = sender }) type (take m bytes)
        let rest = write_loop fuel c' type (n + m) (drop m bytes)
        if is_nil e then rest else ok (c', n, e)
      in if length bytes == 0 then ok (c, n, none) else written

  -- `sendAlertLocked`. Its record is none of change_cipher_spec, so it is the loop alone.
  unfoldable pub send_alert : Conn → ℕ → Outcome Reply
  unfolding write_loop level set_out_error
  send_alert c code = do
    (c', n, e) ← write_loop 2 c record_type_alert 0 (level code ∷ code ∷ [])
    ok (if code == Alert.close_notify then (c', e) else set_out_error c' (local_error code))

  unfoldable pub alerted : Conn → ℕ → Error → Outcome (Conn × ℕ × Option Error)
  unfolding send_alert
  alerted c n e = do code ← alert_code e; (c', sent) ← send_alert c code; ok (c', n, sent)

  -- What follows the loop.
  unfoldable pub change_after : ℕ → Conn → ℕ → Option Error → Outcome (Conn × ℕ × Option Error)
  unfolding alerted
  change_after type c n e =
      let changed : Outcome (Conn × ℕ × Option Error) =
        either (change_cipher_spec c.sender.out) (λ hc. ok (with_out c hc, n, none))
          (alerted c n) in
      if is_nil e && type == record_type_change_cipher_spec && not (c.sender.vers == version_tls13)
      then changed
      else ok (c, n, e)

  unfoldable pub write_record_locked : Conn → ℕ → List ℕ → Outcome (Conn × ℕ × Option Error)
  unfolding write_loop change_after
  write_record_locked c type bytes = do
    (c', n, e) ← write_loop (length bytes) c type 0 bytes
    change_after type c' n e

  -- `closeNotify`, less the write deadlines.
  unfoldable pub close_notify : Conn → Outcome Reply
  unfolding send_alert
  close_notify c =
      let notified : Outcome Reply = do
        (c', e) ← send_alert c Alert.close_notify
        ok (record c' { close_notify_sent = true; close_notify_err = e }, e)
      in if c.close_notify_sent then ok (c, c.close_notify_err) else notified

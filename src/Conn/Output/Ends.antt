-- ===== src/Conn/Output/Ends.antt =====
-- The writing side of a connection returns, with what it returns of an alert. These functions write no
-- application data in this program.
use disguise.Alert as Alert
use disguise.Common.{
  ℕ, zero, suc, ◌+◌, ◌≤◌, ◌≡◌, ◌≢◌, List, [], ◌∷◌, Option, some, true, false, ltb, ◌==◌, not-==,
  if◌then◌else◌, Bool-cases, inl, inr, length, take, drop, length-drop, ok, Error, alert,
  is_close_notify, Ends, ending, Gives, gives_ok, gives_panic, gives_blocked, ok-Always, giving,
  Always, >>=-Gives, if-Gives, refl, arith,
}
use disguise.Common.Crypto.{Crypto}
use disguise.Conn.{Conn, take_result, net_write, set_out_error}
use disguise.Conn.Output.{
  level, write, write_one, write_loop, send_alert, alert_code, alerted, change_after,
  write_record_locked,
}
use disguise.Record.{
  HalfConn, change_cipher_spec, set_error_locked, record_type_application_data, max_plaintext,
}
use disguise.Record.Protect.Ends.{encrypt-Ends}
use disguise.Record.Sizes.{Sender, max_payload_size_for_write}

-- The code of an alert that is not that of a close.
pub alert_code-Gives :
    (e : Error)
    → is_close_notify e ≡ false
    → Gives (λ code. code ≢ Alert.close_notify) (alert_code e)
alert_code-Gives (alert zero) other = cc
alert_code-Gives (alert (suc code)) other = gives_ok (omega arith)
alert_code-Gives e other = gives_panic

module _ ⦃C : Crypto⦄ where
  net_write-Always : (c : Conn) (bytes : List ℕ) → Gives Always (net_write c bytes)
  unfolding net_write
  net_write-Always c bytes = taken c.writes
    where
      taken : (writes : List (ℕ × Option Error)) → Gives Always (take_result c bytes writes)
      taken [] = gives_blocked
      taken (w ∷ rest) = gives_ok tt

  write-Always : (c : Conn) (bytes : List ℕ) → Gives Always (write c bytes)
  unfolding write
  write-Always c bytes = search (giving, net_write-Always)

  write_one-Always :
      (c : Conn) (type : ℕ) (payload : List ℕ) → Gives Always (write_one c type payload)
  unfolding write_one
  write_one-Always c type payload = search (giving, write-Always, encrypt-Ends)

  -- The size of a record that is none of application data.
  pub max_payload_size_for_write-other :
      (s : Sender) (type : ℕ)
      → type ≢ record_type_application_data
      → max_payload_size_for_write s type ≡ ok (max_plaintext, s)
  unfolding max_payload_size_for_write
  max_payload_size_for_write-other s type other = ground (arith, other)

  pub write_loop-Always :
      (fuel : ℕ) (c : Conn) (type n : ℕ) (bytes : List ℕ)
      → type ≢ record_type_application_data
      → length bytes ≤ fuel
      → Gives Always (write_loop fuel c type n bytes)
  unfolding write_loop
  write_loop-Always zero c type n bytes other enough =
      let nothing : (length bytes == 0) ≡ true = ground arith in rw nothing (gives_ok tt)
  write_loop-Always (suc fuel) c type n bytes other enough =
      let m = if ltb max_plaintext (length bytes) then max_plaintext else length bytes in
      elim (Bool-cases (length bytes == 0)) [
        | inl nothing ↦ rw nothing (gives_ok tt)
        | inr something ↦
            let fewer : length (drop m bytes) ≤ fuel = ground (arith, length-drop m bytes) in
            rw (something, max_payload_size_for_write-other c.sender type other)
              (>>=-Gives _ _ (write_one-Always c type (take m bytes)) (λ reply p.
                if-Gives _ _ _
                  (write_loop-Always fuel reply.0 type (n + m) (drop m bytes) other fewer)
                  (gives_ok tt)))
      ]

  -- An alert that is not that of a close gives an error.
  pub send_alert-Gives :
      (c : Conn) (code : ℕ)
      → code ≢ Alert.close_notify
      → Gives (λ reply. (e : Error) × (reply.1 ≡ some e)) (send_alert c code)
  unfolding send_alert set_out_error set_error_locked
  send_alert-Gives c code other =
      >>=-Gives _ _
        (write_loop-Always 2 c 21 0 (level code ∷ code ∷ []) (omega arith) (omega arith))
        (λ x p. rw (not-== other) (gives_ok (_, refl)))

  pub change_cipher_spec-Ends : (hc : HalfConn) → Ends (change_cipher_spec hc)
  unfolding change_cipher_spec
  change_cipher_spec-Ends hc = search ending

  alerted-Always :
      (c : Conn) (n : ℕ) (e : Error) → is_close_notify e ≡ false → Gives Always (alerted c n e)
  unfolding alerted
  alerted-Always c n e other =
      >>=-Gives _ _ (alert_code-Gives e other)
        (λ code p. >>=-Gives _ _ (send_alert-Gives c code p) (λ x q. ok-Always (x.0, n, x.1)))

  change_after-Always :
      (type : ℕ) (c : Conn) (n : ℕ) (e : Option Error) → Gives Always (change_after type c n e)
  unfolding change_after
  change_after-Always type c n e = search (giving, change_cipher_spec-Ends, alerted-Always)

  pub write_record_locked-Always :
      (c : Conn) (type : ℕ) (bytes : List ℕ)
      → type ≢ record_type_application_data
      → Gives Always (write_record_locked c type bytes)
  unfolding write_record_locked
  write_record_locked-Always c type bytes other =
      >>=-Gives _ _ (write_loop-Always (length bytes) c type 0 bytes other (omega arith))
        (λ x p. change_after-Always type x.0 x.1 x.2)

-- ===== src/Conn/Handshake/Closed.antt =====
-- `Close` and `CloseWrite` on every branch.
use disguise.Common.{
  suc, ◌+◌, ◌%◌, ◌≡◌, refl, ap, [], ◌∷◌, Bool, true, false, Option, none, some, ◌==◌, if◌then◌else◌,
  Error, net_closed, early_close_write, Outcome, ok, ◌>>=◌, Gives, gives_ok, >>=-Gives, if-Gives,
  Always, arith,
}
use disguise.Alert as Alert
use disguise.Common.Crypto.{Crypto}
use disguise.Conn.{Conn, Reply}
use disguise.Conn.Output.{close_notify, send_alert, level}
use disguise.Conn.Output.Ends.{write_loop-Always}
use disguise.Conn.Handshake.{
  ActiveConn, close_network, wrap_alert_err, close_after, close, close_write,
}

module _ ⦃C : Crypto⦄ where
  send_close_notify-Always : (c : Conn) → Gives Always (send_alert c Alert.close_notify)
  unfolding send_alert
  send_close_notify-Always c =
      >>=-Gives _ _ (write_loop-Always 2 c 21 0 (level 0 ∷ 0 ∷ []) (omega arith) (omega arith))
        (λ x p. gives_ok tt)

  -- After `closeNotify`, a second call gives the same error and changes nothing.
  abbrev IsNotified : Reply → Type 0
  IsNotified (c, e) = close_notify c ≡ ok (c, e)

  close_notify-IsNotified : (c : Conn) → Gives IsNotified (close_notify c)
  unfolding close_notify
  close_notify-IsNotified c =
      by_flag c.close_notify_sent refl _
        (>>=-Gives _ _ (send_close_notify-Always c) (λ reply p. gives_ok refl))
    where
      notified : Outcome Reply
      notified = do
        (c', e) ← send_alert c Alert.close_notify
        ok (record c' { close_notify_sent = true; close_notify_err = e }, e)

      by_flag :
          (b : Bool)
          → c.close_notify_sent ≡ b
          → (x : Outcome Reply) → Gives IsNotified x
          → Gives IsNotified (if b then ok (c, c.close_notify_err) else x)
      by_flag true sent x h =
          gives_ok (ap (λ b. if b then ok (c, c.close_notify_err) else notified) sent)
      by_flag false fresh x h = h

  -- What `Close` does to a connection that was not closed: the network is closed once, and a further
  -- `Close` is refused and changes nothing.
  abbrev pub IsClosed : ActiveConn → ActiveConn × Option Error → Type 0
  IsClosed a (a', e) = (a'.closes ≡ suc a.closes) × (close a' ≡ ok (a', some net_closed))

  refused : (a : ActiveConn) → (a.active_call % 2 == 1) ≡ true → close a ≡ ok (a, some net_closed)
  unfolding close
  refused a odd = rw (close, odd) refl

  closed :
      (a : ActiveConn) (alert_err : Option Error) (c : Conn)
      → (a.active_call % 2 == 1) ≡ false
      → IsClosed a (
          close_after alert_err
            (close_network (record a { active_call = a.active_call + 1; conn = c })))
  unfolding close_after close_network
  closed a alert_err c even = with_result a.close_result
    where
      after : ActiveConn
      after = record a { active_call = a.active_call + 1; conn = c; closes = suc a.closes }

      odd : ((a.active_call + 1) % 2 == 1) ≡ true
      odd = ground (arith, even)

      with_result : (r : Option Error) → IsClosed a (close_after alert_err (after, r))
      with_result none = (refl, refused after odd)
      with_result (some e) = (refl, refused after odd)

  -- The error of a `Close` that does not send an alert is that of the network.
  close_after-none :
      (a : ActiveConn) (c : Conn)
      → IsClosed a (
          close_after none (close_network (record a { active_call = a.active_call + 1; conn = c })))
      → IsClosed a (close_network (record a { active_call = a.active_call + 1; conn = c }))
  unfolding close_after close_network
  close_after-none a c h = with_result a.close_result h
    where
      after : ActiveConn
      after = record a { active_call = a.active_call + 1; conn = c; closes = suc a.closes }

      with_result :
          (r : Option Error) → IsClosed a (close_after none (after, r)) → IsClosed a (after, r)
      with_result none h = h
      with_result (some e) h = h

  -- `Close` of a connection that is open, with writes in flight or none, before or after the end
  -- of the handshake: where it returns, the network was closed exactly once, whatever the alert
  -- and the network answered, and a second `Close` answers that the connection is closed and
  -- changes nothing. It panics, waits for the network, or returns; it does not run on.
  pub close-IsClosed :
      (a : ActiveConn) → (a.active_call % 2 == 1) ≡ false → Gives (IsClosed a) (close a)
  unfolding close
  close-IsClosed a even =
      rw (close, even)
        (if-Gives _ _ _ (gives_ok (close_after-none a a.conn (closed a none a.conn even))) (
          if-Gives _ _ _
            (>>=-Gives _ _ (close_notify-IsNotified a.conn)
              (λ reply p. gives_ok (closed a (wrap_alert_err reply.1) reply.0 even)))
            (gives_ok (closed a none a.conn even))))

  -- Before the end of the handshake `CloseWrite` is an error that changes nothing. After it, where it returns,
  -- the alert was tried once, and a second `CloseWrite` answers the same and changes nothing.
  pub close_write-early :
      (c : Conn) → c.handshake_complete ≡ false → close_write c ≡ ok (c, some early_close_write)
  unfolding close_write
  close_write-early c h = rw (close_write, h) refl

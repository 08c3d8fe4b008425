-- ===== src/Conn/Handshake.antt =====
-- conn.go: the reading of handshake messages, and the end of a connection.
use disguise.Alert as Alert
use disguise.Common.{
  ℕ, zero, suc, ◌+◌, ◌%◌, List, [], ◌∷◌, Bool, true, false, not, ◌&&◌, Option, none, some, length,
  get_or, take, drop, ltb, ◌==◌, if◌then◌else◌, Error, tls_error, too_long_message, net_closed,
  failed_close_notify, early_close_write, Outcome, ok, out_of_fuel, ◌>>=◌, on_error,
}
use disguise.Common.Crypto.{Crypto}
use disguise.Conn.{Conn, Reply, set_in_error}
use disguise.Conn.Output.{send_alert, close_notify}
use disguise.Conn.Input.{read_record}
use disguise.Messages.{Handshake, unmarshal, u24_at}
pub mod Read
pub mod Delivered
pub mod Closed

abbrev pub max_handshake : ℕ
max_handshake = 65536

module _ ⦃C : Crypto⦄ where
  -- `for c.hand.Len() < n { ... }`, on fuel.
  unfoldable pub read_hand : ℕ → ℕ → Conn → Outcome Reply
  unfolding read_record
  read_hand zero n c = if ltb (length c.hand) n then out_of_fuel else ok (c, none)
  read_hand (suc fuel) n c =
      let more : Outcome Reply = do
        (c', e) ← read_record c
        let rest = read_hand fuel n c'
        on_error e (λ e. ok (c', some e)) rest
      in if ltb (length c.hand) n then more else ok (c, none)

  -- The connection after the call, the message, and the error.
  abbrev pub MessageReply : Type 0
  MessageReply = Conn × Option Handshake × Option Error

  -- `return nil, c.in.setErrorLocked(c.sendAlert(alertUnexpectedMessage))`.
  unfoldable pub refuse_message : Conn → Outcome MessageReply
  unfolding send_alert set_in_error
  refuse_message c = do
    (c', e) ← send_alert c Alert.unexpected_message
    let (c'', e') = set_in_error c' e
    ok (c'', none, e')

  -- The message of `n` bytes after its header. A type that the switch does not know ends like a message that
  -- does not parse.
  unfoldable pub take_message : (List ℕ → Option Handshake) → ℕ → Conn → Outcome MessageReply
  unfolding refuse_message
  take_message others n c =
      let c' = record c { hand = drop (4 + n) c.hand } in
      elim (unmarshal others c.sender.vers (take (4 + n) c.hand)) [
        | none ↦ refuse_message c'
        | some m ↦ ok (c', some m, none)
      ]

  unfoldable pub read_message : (List ℕ → Option Handshake) → Conn → Outcome MessageReply
  unfolding read_hand take_message send_alert set_in_error
  read_message others c =
      let n = u24_at 1 c.hand in
      let too_long : Outcome MessageReply = do
        (c', sent) ← send_alert c Alert.internal_error
        let (c'', e) = set_in_error c' (some (tls_error too_long_message))
        ok (c'', none, e)
      in let whole : Outcome MessageReply = do
        (c', e) ← read_hand (4 + n + 2) (4 + n) c
        on_error e (λ e. ok (c', none, some e)) (take_message others n c')
        in if ltb max_handshake n then too_long else whole

  -- `readHandshake`; `others` is the `unmarshal` of the messages of cryptobyte.
  unfoldable pub read_handshake : (List ℕ → Option Handshake) → Conn → Outcome MessageReply
  unfolding read_hand read_message
  read_handshake others c = do
    (c', e) ← read_hand 6 4 c
    on_error e (λ e. ok (c', none, some e)) (read_message others c')

  -- `Conn` with `activeCall`, what the network's `Close` will answer, and how often it was called.
  pub record ActiveConn : Type 0 where
    pub conn : Conn
    pub active_call : ℕ
    pub close_result : Option Error
    pub closes : ℕ

  -- `c.conn.Close()`.
  unfoldable pub close_network : ActiveConn → ActiveConn × Option Error
  close_network a = (record a { closes = suc a.closes }, a.close_result)

  -- `alertErr`: the error of `closeNotify`, wrapped.
  abbrev pub wrap_alert_err : Option Error → Option Error
  wrap_alert_err none = none
  wrap_alert_err (some e) = some (failed_close_notify e)

  -- What `Close` returns after the network was closed.
  unfoldable pub close_after : Option Error → ActiveConn × Option Error → ActiveConn × Option Error
  close_after alert_err (a, none) = (a, alert_err)
  close_after alert_err (a, some e) = (a, some e)

  -- `Close`. No other goroutine changes `activeCall` between the load and the swap.
  unfoldable pub close : ActiveConn → Outcome (ActiveConn × Option Error)
  unfolding close_network close_after close_notify
  close a =
      let x = a.active_call in
      let closing = record a { active_call = x + 1 } in
      let notified : Outcome (ActiveConn × Option Error) = do
        (c, e) ← close_notify a.conn
        ok (close_after (wrap_alert_err e) (close_network (record closing { conn = c })))
      in if x % 2 == 1
        then ok (a, some net_closed)
        else if not (x == 0)
        then ok (close_network closing)
        else if a.conn.handshake_complete
        then notified
        else ok (close_after none (close_network closing))

  unfoldable pub close_write : Conn → Outcome Reply
  unfolding close_notify
  close_write c =
      if not c.handshake_complete then ok (c, some early_close_write) else close_notify c

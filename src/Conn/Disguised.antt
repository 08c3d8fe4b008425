-- ===== src/Conn/Disguised.antt =====
-- `Read`, `readAndDecryptRecord` and `Write` of conn.go, which carry the cells of the manager in records.
pub mod Single
use disguise.Alert as Alert
use disguise.Common.{
  ℕ, suc, List, [], ◌∷◌, Bool, true, false, ltb, ◌&&◌, ◌==◌, if◌then◌else◌, Option, none, some,
  length, get_or, copy, Outcome, ok, ◌>>=◌, either, on_error, Error, eof, no_outbound_traffic,
  bad_record_header,
}
use disguise.Common.Crypto.{Crypto}
use disguise.Common.Floats.{Floats}
use disguise.Conn.{Conn, Reply, set_in_error, with_out, net_write}
use disguise.Conn.Input.{read_record}
use disguise.Conn.Output.{alert_code, send_alert}
use disguise.Framing.Fragment.{CellDraws}
use disguise.Manager as Manager
use disguise.Manager.{Manager, value, failure}
use disguise.Record.{record_type_alert, record_type_application_data}
use disguise.Record.Protect.{decrypt, encrypt}

abbrev pub is_eof : Error → Bool
is_eof eof = true
is_eof e = false

abbrev pub or_empty : Option (List ℕ) → List ℕ
or_empty none = []
or_empty (some bytes) = bytes

module _ ⦃C : Crypto⦄ where
  -- What `readAndDecryptRecord` returns: the content, its type and the error.
  pub record Content : Type 0 where
    pub body : List ℕ
    pub type : ℕ
    pub failed : Option Error

  -- The switch of `readAndDecryptRecord`, each case of which ends its loop.
  unfoldable pub content_of : List ℕ → ℕ → Content
  content_of body type =
      let refused : Error → Content = λ e. record { body = []; type = 0; failed = some e } in
      let code = if length body == 2 then get_or body 1 0 else 0 in
      if type == record_type_alert
      then (if code == Alert.close_notify then refused eof else refused bad_record_header)
      else if type == record_type_application_data
      then record { body = body; type = type; failed = none }
      else refused bad_record_header

  -- The rest of `rawInput`, which is decrypted again.
  unfoldable pub decrypt_rest : Conn → Outcome (Conn × Content)
  unfolding content_of send_alert
  decrypt_rest c =
      let c' = record c { raw_input = [] } in
      either (decrypt c.incoming c.raw_input)
        (λ (body, type, hc). ok (record c' { incoming = hc }, content_of body type))
        (λ e. do
          code ← alert_code e
          (c'', sent) ← send_alert c' code
          ok (c'', record { body = []; type = 0; failed = some e }))

  -- `readAndDecryptRecord`, with `handshakeErr`.
  unfoldable pub read_and_decrypt : Option Error → Conn → Outcome (Conn × Content)
  unfolding decrypt_rest set_in_error
  read_and_decrypt handshake_err c = do
    (c', e) ← read_record c
    on_error e
        (λ e'.
          let (c'', kept) = set_in_error c' handshake_err in
          if is_eof e'
          then ok (c', record { body = []; type = 0; failed = some e' })
          else ok (c'', record { body = []; type = 0; failed = kept }))
        (decrypt_rest c')

  module _ ⦃F : Floats⦄ where
    -- A connection with its manager.
    pub record Tunnel : Type 0 where
      pub conn : Conn
      pub manager : Manager

    -- A round of `Read` returns the count, the buffer and the error, or goes on.
    pub data Round : Type 0 where
      returned : ℕ → List ℕ → Option Error → Round
      again : Round

    -- What `Read` does with the content of a record that is no application data: an error in each case.
    unfoldable pub refuse_content : Tunnel → List ℕ → ℕ → List ℕ → Outcome (Tunnel × Round)
    unfolding send_alert set_in_error
    refuse_content t body type buffer =
        let code = if length body == 2 then get_or body 1 0 else 0 in
        let (closed, e) = set_in_error t.conn (some eof) in
        let refused : Outcome (Tunnel × Round) = do
          let (c, e') = set_in_error t.conn (some bad_record_header)
          (c', sent) ← send_alert c Alert.unexpected_message
          ok (record t { conn = c' }, returned 0 buffer c'.incoming.failed)
        in if type == record_type_alert && code == Alert.close_notify
          then ok (record t { conn = closed }, returned 0 buffer (some eof))
          else refused

    -- What the manager answers to a cell.
    abbrev pub answer_manager :
        Tunnel → List ℕ → Manager → Manager.Reply (Unit {0}) → Outcome (Tunnel × Round)
    unfolding send_alert
    answer_manager t buffer m (value x) = ok (record t { manager = m }, again)
    answer_manager t buffer m (failure e) = do
      (c, sent) ← send_alert t.conn Alert.bad_record_mac
      ok (record { conn = c; manager = m }, returned 0 buffer (some e))

    unfoldable pub accept_content : Tunnel → List ℕ → List ℕ → List ℕ → Outcome (Tunnel × Round)
    unfolding answer_manager
    accept_content t body spare buffer = do
      (reply, m) ← Manager.process_inbound_traffic t.manager body spare
      answer_manager t buffer m reply

    -- A round of the loop of `Read`, into `buffer`. `spare` is what the backing array of a record holds
    -- behind it.
    unfoldable pub read_round : Option Error → Tunnel → List ℕ → List ℕ → Outcome (Tunnel × Round)
    unfolding read_and_decrypt refuse_content accept_content
    read_round handshake_err t spare buffer = do
      (queued, m) ← Manager.read_application_data t.manager
      let plaintext = or_empty queued
      let n = if ltb (length buffer) (length plaintext) then length buffer else length plaintext
      let from_network : Outcome (Tunnel × Round) = do
        (c, content) ← read_and_decrypt handshake_err t.conn
        let t' : Tunnel = record { conn = c; manager = m }
        on_error content.failed (λ e. ok (t', returned 0 buffer (some e)))
            (if content.type == record_type_application_data
              then accept_content t' content.body spare buffer
              else refuse_content t' content.body content.type buffer)
      if ltb 0 (length plaintext)
          then ok (record t { manager = m }, returned n (copy buffer plaintext) none)
          else from_network

    -- A packet of `Write`, in a record of its own: `encrypt` is given no header.
    unfoldable pub send_packet : Tunnel → List ℕ → Outcome (Tunnel × Option Error)
    unfolding net_write
    send_packet t packet =
        let drawn = record t.conn { drawn = suc t.conn.drawn } in
        either (encrypt t.conn.sender.out [] packet (t.conn.draws t.conn.drawn))
          (λ (sealed, hc). do
            (c, n, e) ← net_write (with_out drawn hc) sealed
            ok (record t { conn = c }, e))
          (λ e. ok (record t { conn = drawn }, some e))

    -- `Write` of a packet that the manager has, on its error and at the end of the packets.
    abbrev pub send_reply :
        Tunnel → Manager.Reply (List ℕ) → Outcome (Tunnel × Option (Option Error))
    unfolding send_packet
    send_reply t (failure no_outbound_traffic) = ok (t, some none)
    send_reply t (failure e) = ok (t, some (some e))
    send_reply t (value packet) = do
      (t', e) ← send_packet t packet
      on_error e (λ e'. ok (t', some (some e'))) (ok (t', none))

    -- A round of the loop of `Write` at the time `now`: none where it goes on, and else the error.
    unfoldable pub write_round : Tunnel → ℕ → Outcome (Tunnel × Option (Option Error))
    unfolding send_reply
    write_round t now = do
      (reply, m) ← Manager.get_outbound_traffic t.manager now
      send_reply (record t { manager = m }) reply

    -- The loop of `Write` over the times of its rounds; none where they are used up first.
    unfoldable pub write_rounds : Tunnel → List ℕ → Outcome (Tunnel × Option (Option Error))
    unfolding write_round
    write_rounds t [] = ok (t, none)
    write_rounds t (now ∷ times) = do
      (t', finished) ← write_round t now
      let rest = write_rounds t' times
      elim finished [ none ↦ rest | some e ↦ ok (t', some e) ]

    -- `Write` after the handshake.
    unfoldable pub write_application_data :
        Tunnel
        → List ℕ
        → Option (ℕ × ℕ)
        → (ℕ → CellDraws)
        → (ℕ → ℕ)
        → List ℕ
        → Outcome (Tunnel × Option (Option Error))
    unfolding write_rounds
    write_application_data t bytes id draws dues times = do
      m ← Manager.queue_application_data t.manager bytes id draws dues
      write_rounds (record t { manager = m }) times

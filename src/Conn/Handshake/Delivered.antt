-- ===== src/Conn/Handshake/Delivered.antt =====
-- A message whose bytes have arrived is what `readHandshake` returns.
use disguise.Common.{
  ℕ, zero, suc, ◌+◌, ◌≤◌, ◌<◌, ◌≡◌, ◌≢◌, refl, sym, ap, ◌∙◌, List, ◌++◌, length, length-append,
  take, drop, take_append_left, drop_append_left, false, Option, none, some, ltb, le→ltb, ok, arith,
}
use disguise.Common.Bytes.{be, length-be}
use disguise.Common.Crypto.{Crypto}
use disguise.Conn.{Conn}
use disguise.Conn.Handshake.{read_hand, take_message, read_message, read_handshake, max_handshake}
use disguise.Messages.{
  Message, Handshake, framed, encoding, marshal, unmarshal, u24_at, hello_request,
  server_hello_done, new_session_ticket, certificate, server_key_exchange, client_key_exchange,
  certificate_request,
}
use disguise.Messages.Framed.{encoding-framed}
use disguise.Messages.Roundtrip.{IsEncodable, unmarshal-marshal}
use disguise.Record.{version_tls13}

u24_at-framed :
    (type : ℕ) (body rest : List ℕ)
    → length body < 16777216
    → u24_at 1 (framed type body ++ rest) ≡ length body
unfolding be
u24_at-framed type body rest small = omega arith

marshal-encoding : (m : Message) → (marshal (record { raw = none; message = m })).0 ≡ encoding m
unfolding marshal
marshal-encoding hello_request = refl
marshal-encoding server_hello_done = refl
marshal-encoding (new_session_ticket ticket) = refl
marshal-encoding (certificate cs) = refl
marshal-encoding (server_key_exchange key) = refl
marshal-encoding (client_key_exchange ciphertext) = refl
marshal-encoding (certificate_request has types algorithms authorities) = refl

module _ ⦃C : Crypto⦄ where
  read_hand_full : (fuel n : ℕ) (c : Conn) → n ≤ length c.hand → read_hand fuel n c ≡ ok (c, none)
  unfolding read_hand
  read_hand_full zero n c h = rw (le→ltb (length c.hand) n h) refl
  read_hand_full (suc fuel) n c h = rw (le→ltb (length c.hand) n h) refl

  -- Where a whole message stands first in the handshake data, `readHandshake` parses it, and takes it off.
  read_handshake-framed :
      (others : List ℕ → Option Handshake) (c : Conn) (type : ℕ) (body rest : List ℕ)
      (m : Handshake)
      → c.hand ≡ framed type body ++ rest
      → length body ≤ max_handshake
      → unmarshal others c.sender.vers (framed type body) ≡ some m
      → read_handshake others c ≡ ok (record c { hand = rest }, some m, none)
  unfolding read_handshake read_message take_message
  read_handshake-framed others c type body rest m arrived fits parsed =
      let n = length body in
      let size : length (framed type body) ≡ 4 + n =
        omega (arith, length-append (be 3 n) body, length-be 3 n) in
      let whole : 4 + n ≤ length c.hand =
        omega (arith, ap length arrived, length-append (framed type body) rest, size) in
      let its_size : u24_at 1 c.hand ≡ n =
        ap (u24_at 1) arrived ∙ u24_at-framed type body rest (omega (arith, fits)) in
      let short : ltb max_handshake n ≡ false = le→ltb max_handshake n fits in
      let front : take (4 + n) c.hand ≡ framed type body =
        ap (take (4 + n)) arrived ∙ take_append_left (4 + n) (framed type body) rest (sym size) in
      let left : drop (4 + n) c.hand ≡ rest =
        ap (drop (4 + n)) arrived ∙ drop_append_left (4 + n) (framed type body) rest (sym size) in
      rw (read_handshake, read_hand_full 6 4 c (omega (arith, whole)))
        (rw (read_message, its_size, short, read_hand_full (4 + n + 2) (4 + n) c whole)
          (rw (take_message, front, parsed)
            (ap (λ l. ok (record c { hand = l }, some m, none)) left)))

  -- A message of those encoded byte by byte, before TLS 1.3, whose bytes stand first in the
  -- handshake data and fit the largest handshake: `readHandshake` returns the message as `marshal`
  -- leaves it, takes its bytes off, and changes nothing else.
  pub read_handshake-marshal :
      (others : List ℕ → Option Handshake) (c : Conn) (m : Message) (rest : List ℕ)
      → c.sender.vers ≢ version_tls13
      → IsEncodable c.sender.vers m
      → length (encoding m) ≤ 4 + max_handshake
      → c.hand ≡ (marshal (record { raw = none; message = m })).0 ++ rest
      → read_handshake others c
        ≡ ok (record c { hand = rest }, some (marshal (record { raw = none; message = m })).1, none)
  read_handshake-marshal others c m rest old is fits arrived =
      let (type, body, framed_as, small) = encoding-framed c.sender.vers m is in
      let (parsed, _) = unmarshal-marshal others c.sender.vers m old is in
      let bytes : (marshal (record { raw = none; message = m })).0 ≡ framed type body =
        marshal-encoding m ∙ framed_as in
      let size : length (encoding m) ≡ 4 + length body =
        ap length framed_as
        ∙ omega (arith, length-append (be 3 (length body)) body, length-be 3 (length body)) in
      read_handshake-framed others c type body rest _ (arrived ∙ ap (λ b. b ++ rest) bytes)
        (omega (arith, fits, size)) (ap (unmarshal others c.sender.vers) (sym bytes) ∙ parsed)

-- ===== src/Conn/Disguised/Single.antt =====
-- `readAndDecryptRecord` on a record of application data that arrives by itself.
use disguise.Common.{
  ℕ, ◌+◌, ◌*◌, ◌/◌, ◌%◌, ◌^◌, ◌<◌, ◌≤◌, ◌≡◌, refl, List, [], ◌∷◌, ◌++◌, true, Option, none, some,
  length, take, drop, take_all, drop_all, ok, panic, Error, ltb, leb, ◌==◌, false, arith,
}
use disguise.Common.Bytes.{be}
use disguise.Common.Crypto.{Crypto}
use disguise.Conn.{Conn}
use disguise.Conn.Disguised.{decrypt_rest, read_and_decrypt}
use disguise.Conn.Input.{
  done, read_from, at_least_error, read_from_until, process_record, process_type,
  process_application_data, open_record, read_body, read_header, receive, read_rounds, read_record,
  read_record_or_ccs,
}
use disguise.Record.{HalfConn, version_tls13}
use disguise.Record.Protect.{decrypt}
use disguise.Record.Protect.Tls13.{tls13, sealed_header, decrypt-tls13}

module _ ⦃C : Crypto⦄ where
  -- A connection of TLS 1.3 after the handshake, with nothing left to read but what arrives.
  abbrev pub waiting : Conn → HalfConn → List ℕ → List (List ℕ × Option Error) → Conn
  waiting c hc raw reads = record c {
    sender = record c.sender { vers = version_tls13 };
    incoming = hc;
    have_vers = true;
    handshake_complete = true;
    input = [];
    raw_input = raw;
    hand = [];
    reads = reads;
  }

  abbrev pub unfailed : HalfConn → HalfConn
  unfailed hc = record hc { failed = none }

  arrives :
      (packet : List ℕ) (rest : List (List ℕ × Option Error))
      → 5 ≤ length packet
      → read_from ((packet, none) ∷ rest) 5 [] ≡ ok (rest, packet, none)
  unfolding read_from at_least_error
  arrives packet rest long = ground arith

  opens :
      (c : Conn) (hc hc' : HalfConn) (key : C.Key) (overhead k : ℕ) (packet body : List ℕ)
      (rest : List (List ℕ × Option Error)) (n : ℕ)
      → length packet ≡ 5 + n
      → decrypt hc packet ≡ ok (body, 23, tls13 hc' key overhead k)
      → 1 ≤ length body
      → length body ≤ 16384
      → open_record false (waiting c hc packet rest) n
        ≡ ok (
            done (
              record (waiting c (tls13 hc' key overhead k) [] rest) {
                retry_count = 0;
                input = body;
              },
              none,
            ))
  unfolding open_record process_record process_type process_application_data
  opens c hc hc' key overhead k packet body rest n long is some_left short =
      let e1 : take (5 + n) packet ≡ packet = take_all (5 + n) packet (omega (arith, long)) in
      let e2 : drop (5 + n) packet ≡ [] = drop_all (5 + n) packet (omega (arith, long)) in
      let e3 : ltb 16384 (length body) ≡ false = ground arith in
      let e4 : ltb 0 (length body) ≡ true = ground arith in
      let e5 : (length body == 0) ≡ false = ground arith in rw (e1, e2, is, e3, e4, e5) refl

  reads_record :
      (c : Conn) (hc hc' : HalfConn) (key : C.Key) (overhead k v1 v2 : ℕ) (sealed body : List ℕ)
      (rest : List (List ℕ × Option Error))
      → length sealed ≤ 16640
      → decrypt (unfailed hc) (sealed_header v1 v2 (length sealed) ++ sealed)
        ≡ ok (body, 23, tls13 hc' key overhead k)
      → 1 ≤ length body
      → length body ≤ 16384
      → read_record (
          waiting c (unfailed hc) [] ((sealed_header v1 v2 (length sealed) ++ sealed, none) ∷ rest))
        ≡ ok (
          record (waiting c (tls13 hc' key overhead k) [] rest) { retry_count = 0; input = body },
          none,
        )
  unfolding read_record read_record_or_ccs read_rounds receive read_header read_body read_from_until
  reads_record c hc hc' key overhead k v1 v2 sealed body rest fits is some_left short =
      let n = length sealed in
      let packet = sealed_header v1 v2 n ++ sealed in
      let e0 = arrives packet rest (omega arith) in
      let e1 : n / 256 % 256 * 256 + n % 256 ≡ n = omega arith in
      let e2 =
        opens c (unfailed hc) hc' key overhead k packet body rest n (omega arith) is some_left
          short in
      let e3 : ltb 16640 n ≡ false = ground arith in
      let e4 : ltb 18432 n ≡ false = ground arith in
      let e5 : leb (5 + n) (length packet) ≡ true = ground arith in rw (e0, e1, e3, e4, e5, e2) refl

  -- On a connection of TLS 1.3 after the handshake that has no error and nothing left to read,
  -- where a record of application data arrives by itself, of up to 16640 bytes and with 1 to 16384
  -- bytes of content that its cipher opens, `readAndDecryptRecord` panics.
  pub read_and_decrypt-single :
      (c : Conn) (hc : HalfConn) (key : C.Key) (overhead k v1 v2 : ℕ) (sealed body : List ℕ)
      (rest : List (List ℕ × Option Error)) (handshake_err : Option Error)
      → k + 1 < 256 ^ 8
      → length sealed ≤ 16640
      → 1 ≤ length body
      → length body ≤ 16384
      → C.open_sealed key (be 8 k) sealed (sealed_header v1 v2 (length sealed))
        ≡ some (body ++ (23 ∷ []))
      → read_and_decrypt handshake_err (
          waiting c
            (tls13 (unfailed hc) key overhead k)
            []
            ((sealed_header v1 v2 (length sealed) ++ sealed, none) ∷ rest))
        ≡ panic
  unfolding read_and_decrypt decrypt_rest decrypt
  read_and_decrypt-single c hc key overhead k v1 v2 sealed body rest handshake_err room fits
        some_left short opened =
      let is =
        decrypt-tls13 (unfailed hc) key overhead k v1 v2 (length sealed) sealed body 23 room
          (omega arith) short opened in
      rw
        (reads_record c (tls13 hc key overhead k) (unfailed hc) key overhead (k + 1) v1 v2 sealed
          body rest fits is some_left short)
        refl

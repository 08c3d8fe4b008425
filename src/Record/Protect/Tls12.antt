-- ===== src/Record/Protect/Tls12.antt =====
-- `encrypt` and `decrypt` before TLS 1.3: the records of an AEAD.
use disguise.Common.{
  ℕ, ◌+◌, ◌-◌, ◌%◌, ◌^◌, ◌<◌, ◌≤◌, ◌≡◌, ◌≢◌, refl, List, ◌∷◌, ◌++◌, Option, none, some, length, ok,
  not-==, lt→ltb, arith,
}
use disguise.Common.Bytes.{be, length-be, slice, slice_from}
use disguise.Common.Crypto.{Crypto}
use disguise.Record.{aead, HalfConn, inc_seq, explicit_nonce_len, nonce_len, version_tls13}
use disguise.Record.Protect.{
  with_length, explicit_nonce, encrypt_with, encrypt_by, encrypt, or_bad_mac, additional,
  decrypt_with, inner_type, check_mac, decrypt_by, decrypt,
}
use disguise.Record.Sequence.{inc_seq-be}

module _ ⦃C : Crypto⦄ where
  -- A half-connection of an earlier version that holds an AEAD with an explicit nonce of `e` bytes.
  abbrev pub earlier : HalfConn → ℕ → C.Key → ℕ → ℕ → ℕ → HalfConn
  earlier hc version key e overhead n = record hc {
    version = version;
    cipher = some (aead key e overhead);
    mac = none;
    seq = be 8 n;
  }

  counted :
      (hc : HalfConn) (version : ℕ) (key : C.Key) (e overhead n : ℕ)
      → n + 1 < 256 ^ 8
      → inc_seq (earlier hc version key e overhead n)
        ≡ ok (earlier hc version key e overhead (n + 1))
  counted hc version key e overhead n room =
      rw (lt→ltb (n + 1) (256 ^ 8) room) at
        (inc_seq-be (earlier hc version key e overhead n) n (omega (arith, room)) refl)

  -- The additional data: the sequence number and the header.
  abbrev extra : ℕ → ℕ → ℕ → ℕ → List ℕ → List ℕ
  extra n t v1 v2 payload = be 8 n ++ (t ∷ v1 ∷ v2 ∷ be 2 (length payload))

  gcm-encrypt :
      (hc : HalfConn) (version : ℕ) (key : C.Key) (overhead n t v1 v2 : ℕ) (payload : List ℕ)
      (random : Option (ℕ → ℕ))
      → n + 1 < 256 ^ 8
      → version ≢ version_tls13
      → encrypt
          (earlier hc version key 8 overhead n)
          (t ∷ v1 ∷ v2 ∷ be 2 (length payload))
          payload
          random
        ≡ (let sealed = C.seal key (be 8 n) payload (extra n t v1 v2 payload) in
            ok (
              t ∷ v1 ∷ v2 ∷ (be 2 (length sealed + 8) ++ (be 8 n ++ sealed)),
              earlier hc version key 8 overhead (n + 1),
            ))
  unfolding encrypt encrypt_by explicit_nonce explicit_nonce_len nonce_len encrypt_with with_length
      slice slice_from be
  gcm-encrypt hc version key overhead n t v1 v2 payload random room old =
      ground (arith, counted hc version key 8 overhead n room, not-== old)

  gcm-decrypt :
      (hc : HalfConn) (version : ℕ) (key : C.Key) (overhead n t v1 v2 m : ℕ)
      (sealed payload : List ℕ)
      → n + 1 < 256 ^ 8
      → version ≢ version_tls13
      → length sealed ≡ length payload + overhead
      → length payload < 65536
      → overhead ≤ 65536
      → C.open_sealed key (be 8 n) sealed (extra n t v1 v2 payload) ≡ some payload
      → decrypt (earlier hc version key 8 overhead n) (t ∷ v1 ∷ v2 ∷ (be 2 m ++ (be 8 n ++ sealed)))
        ≡ ok (payload, t, earlier hc version key 8 overhead (n + 1))
  unfolding decrypt decrypt_by explicit_nonce_len nonce_len decrypt_with additional or_bad_mac
      inner_type check_mac slice slice_from be
  gcm-decrypt hc version key overhead n t v1 v2 m sealed payload room old long short small opens =
      let counted_back : (length sealed + 65536 - overhead) % 65536 ≡ length payload =
        omega (arith, long) in
      ground (arith, counted hc version key 8 overhead n room, not-== old, opens, counted_back)

  -- Before TLS 1.3, with an AEAD whose explicit nonce has 8 bytes and whose overhead is at most
  -- 65536, what `encrypt` makes of a payload below 2 ^ 16 bytes, behind a header with its type and
  -- length, `decrypt` of the other side with the same key and sequence number opens to the payload
  -- and the type, and both sequence numbers go up by one. The AEAD opens what it sealed under an
  -- 8-byte nonce and adds its overhead.
  pub decrypt-encrypt_gcm :
      (writer reader : HalfConn) (version : ℕ) (key : C.Key) (overhead n t v1 v2 : ℕ)
      (payload : List ℕ) (random : Option (ℕ → ℕ))
      → n + 1 < 256 ^ 8
      → version ≢ version_tls13
      → length payload < 65536
      → overhead ≤ 65536
      → ((nonce text extra : List ℕ)
          → length nonce ≡ 8
          → C.open_sealed key nonce (C.seal key nonce text extra) extra ≡ some text)
      → ((nonce text extra : List ℕ)
          → length nonce ≡ 8
          → length (C.seal key nonce text extra) ≡ length text + overhead)
      → (packet : List ℕ) × (encrypt
            (earlier writer version key 8 overhead n)
            (t ∷ v1 ∷ v2 ∷ be 2 (length payload))
            payload
            random
          ≡ ok (packet, earlier writer version key 8 overhead (n + 1)))
        × (decrypt (earlier reader version key 8 overhead n) packet
            ≡ ok (payload, t, earlier reader version key 8 overhead (n + 1)))
  decrypt-encrypt_gcm writer reader version key overhead n t v1 v2 payload random room old short
        small opens long =
      let sealed = C.seal key (be 8 n) payload (extra n t v1 v2 payload) in
      (
        t ∷ v1 ∷ v2 ∷ (be 2 (length sealed + 8) ++ (be 8 n ++ sealed)),
        gcm-encrypt writer version key overhead n t v1 v2 payload random room old,
        gcm-decrypt reader version key overhead n t v1 v2 (length sealed + 8) sealed payload room
            old (long _ _ _ (length-be 8 n)) short small (opens _ _ _ (length-be 8 n)),
      )

-- ===== src/Record/Protect/Tls13.antt =====
-- `encrypt` and `decrypt` under TLS 1.3: the records of an AEAD without an explicit nonce.
use disguise.Alert as Alert
use disguise.Common.{
  ℕ, suc, ◌+◌, ◌/◌, ◌%◌, ◌^◌, ◌<◌, ◌≤◌, ◌≡◌, ◌≢◌, refl, ap, sym, ◌∙◌, List, [], ◌∷◌, ◌++◌, Option,
  none, some, length, length-append, get_or, get_or-last, take_append_left, ok, err, alert, not-==,
  lt→ltb, arith,
}
use disguise.Common.Bytes.{be, length-be, slice, slice_from}
use disguise.Common.Crypto.{Crypto}
use disguise.Record.{
  aead, HalfConn, inc_seq, explicit_nonce_len, nonce_len, version_tls13, max_plaintext,
  record_type_application_data,
}
use disguise.Record.Protect.{
  with_length, strip, explicit_nonce, encrypt_with, encrypt_by, encrypt, or_bad_mac, additional,
  decrypt_with, inner_type, check_mac, decrypt_by, decrypt,
}
use disguise.Record.Sequence.{inc_seq-be}
use mathlib.Core.List.{append_assoc, append-nil}

module _ ⦃C : Crypto⦄ where
  -- A half-connection of TLS 1.3 that holds a key and has seen `n` records.
  abbrev pub tls13 : HalfConn → C.Key → ℕ → ℕ → HalfConn
  tls13 hc key overhead n = record hc {
    version = version_tls13;
    cipher = some (aead key 0 overhead);
    mac = none;
    seq = be 8 n;
  }

  abbrev pub sealed_header : ℕ → ℕ → ℕ → List ℕ
  sealed_header v1 v2 n = record_type_application_data ∷ v1 ∷ v2 ∷ n / 256 % 256 ∷ n % 256 ∷ []

  counted :
      (hc : HalfConn) (key : C.Key) (overhead n : ℕ)
      → n + 1 < 256 ^ 8
      → inc_seq (tls13 hc key overhead n) ≡ ok (tls13 hc key overhead (n + 1))
  counted hc key overhead n room =
      rw (lt→ltb (n + 1) (256 ^ 8) room) at
        (inc_seq-be (tls13 hc key overhead n) n (omega (arith, room)) refl)

  -- The bytes after the first five of what `encrypt` is given are sealed, with the first as the content type.
  pub encrypt-tls13 :
      (hc : HalfConn) (key : C.Key) (overhead n : ℕ) (out payload : List ℕ) (h0 h1 h2 h3 h4 : ℕ)
      (rest : List ℕ) (random : Option (ℕ → ℕ))
      → n + 1 < 256 ^ 8
      → out ++ payload ≡ h0 ∷ h1 ∷ h2 ∷ h3 ∷ h4 ∷ rest
      → encrypt (tls13 hc key overhead n) out payload random ≡ (
          let sealed =
            C.seal key
              (be 8 n)
              (rest ++ (h0 ∷ []))
              (sealed_header h1 h2 (length payload + 1 + overhead)) in
          ok (sealed_header h1 h2 (length sealed) ++ sealed, tls13 hc key overhead (n + 1)))
  unfolding encrypt encrypt_by explicit_nonce explicit_nonce_len nonce_len encrypt_with with_length
      slice slice_from
  encrypt-tls13 hc key overhead n out payload h0 h1 h2 h3 h4 rest random room e =
      let joined : out ++ (payload ++ (h0 ∷ [])) ≡ h0 ∷ h1 ∷ h2 ∷ h3 ∷ h4 ∷ (rest ++ (h0 ∷ [])) =
        sym (append_assoc out payload (h0 ∷ [])) ∙ ap (λ l. l ++ (h0 ∷ [])) e in
      rw (append-nil out, e, joined) (ground (arith, counted hc key overhead n room))

  last-strip :
      (text : List ℕ) (t type : ℕ)
      → t ≢ 0
      → strip (length (text ++ (t ∷ []))) (text ++ (t ∷ [])) type ≡ ok (text, t)
  unfolding strip
  last-strip text t type nonzero =
      let long : length (text ++ (t ∷ [])) ≡ suc (length text) =
        omega (arith, length-append text (t ∷ [])) in
      rw
        (
          long,
          get_or-last text t 0,
          take_append_left (length text) text (t ∷ []) refl,
          not-== nonzero,
        )
        refl

  -- What opens as a text and a content type is read as these.
  pub decrypt-tls13 :
      (hc : HalfConn) (key : C.Key) (overhead n v1 v2 m : ℕ) (sealed text : List ℕ) (t : ℕ)
      → n + 1 < 256 ^ 8
      → t ≢ 0
      → length text ≤ max_plaintext
      → C.open_sealed key (be 8 n) sealed (sealed_header v1 v2 m) ≡ some (text ++ (t ∷ []))
      → decrypt (tls13 hc key overhead n) (sealed_header v1 v2 m ++ sealed)
        ≡ ok (text, t, tls13 hc key overhead (n + 1))
  unfolding decrypt decrypt_by explicit_nonce_len nonce_len decrypt_with additional or_bad_mac
      inner_type check_mac slice slice_from
  decrypt-tls13 hc key overhead n v1 v2 m sealed text t room nonzero short opens =
      let long : length (text ++ (t ∷ [])) ≡ length text + 1 = length-append text (t ∷ []) in
      ground (arith, opens, counted hc key overhead n room, last-strip text t 23 nonzero, long)

  pub decrypt-tls13_forged :
      (hc : HalfConn) (key : C.Key) (overhead n v1 v2 m : ℕ) (sealed : List ℕ)
      → C.open_sealed key (be 8 n) sealed (sealed_header v1 v2 m) ≡ none
      → decrypt (tls13 hc key overhead n) (sealed_header v1 v2 m ++ sealed)
        ≡ err (alert Alert.bad_record_mac)
  unfolding decrypt decrypt_by explicit_nonce_len nonce_len decrypt_with additional or_bad_mac slice
      slice_from
  decrypt-tls13_forged hc key overhead n v1 v2 m sealed opens = ground (arith, opens)

  -- Under TLS 1.3, what `encrypt` makes of a payload of up to 16384 bytes behind a header of five
  -- bytes whose type is not 0, `decrypt` of the other side with the same key and sequence number
  -- opens to the payload and the type, and both sequence numbers go up by one. The AEAD opens what
  -- it sealed under an 8-byte nonce and adds its overhead.
  pub decrypt-encrypt :
      (writer reader : HalfConn) (key : C.Key) (overhead n : ℕ) (t v1 v2 l1 l2 : ℕ)
      (payload : List ℕ) (random : Option (ℕ → ℕ))
      → n + 1 < 256 ^ 8
      → t ≢ 0
      → length payload ≤ max_plaintext
      → ((nonce text extra : List ℕ)
          → length nonce ≡ 8
          → C.open_sealed key nonce (C.seal key nonce text extra) extra ≡ some text)
      → ((nonce text extra : List ℕ)
          → length nonce ≡ 8
          → length (C.seal key nonce text extra) ≡ length text + overhead)
      → (packet : List ℕ) × (encrypt
            (tls13 writer key overhead n)
            (t ∷ v1 ∷ v2 ∷ l1 ∷ l2 ∷ [])
            payload
            random
          ≡ ok (packet, tls13 writer key overhead (n + 1)))
        × (decrypt (tls13 reader key overhead n) packet
            ≡ ok (payload, t, tls13 reader key overhead (n + 1)))
  decrypt-encrypt writer reader key overhead n t v1 v2 l1 l2 payload random room nonzero short opens
        long =
      let m = length payload + 1 + overhead in
      let sealed = C.seal key (be 8 n) (payload ++ (t ∷ [])) (sealed_header v1 v2 m) in
      let same : length sealed ≡ m = omega (
        arith,
        long (be 8 n) (payload ++ (t ∷ [])) (sealed_header v1 v2 m) (length-be 8 n),
        length-append payload (t ∷ []),
      ) in
      (
        sealed_header v1 v2 m ++ sealed,
        rw same at (
            encrypt-tls13 writer key overhead n (t ∷ v1 ∷ v2 ∷ l1 ∷ l2 ∷ []) payload t v1 v2 l1 l2
              payload random room refl),
        decrypt-tls13 reader key overhead n v1 v2 m sealed payload t room nonzero short
            (opens _ _ _ (length-be 8 n)),
      )

  sealed_header-injective :
      (v1 v2 m m' : ℕ) → m % 256 ≢ m' % 256 → sealed_header v1 v2 m ≢ sealed_header v1 v2 m'
  sealed_header-injective v1 v2 m m' differ e = differ (ap (λ l. get_or l 4 0) e)

  -- Under TLS 1.3, `encrypt` of five bytes or more behind no header, as `Conn.Write` calls it,
  -- returns a record, and `decrypt` of the other side with the same key and sequence number
  -- answers it with the alert for a bad record MAC. The AEAD adds its overhead and refuses other
  -- additional data than it sealed, under an 8-byte nonce.
  pub decrypt-encrypt_nil :
      (writer reader : HalfConn) (key : C.Key) (overhead n : ℕ) (packet : List ℕ)
      (random : Option (ℕ → ℕ))
      → n + 1 < 256 ^ 8
      → 5 ≤ length packet
      → ((nonce text extra extra' : List ℕ)
          → length nonce ≡ 8
          → extra ≢ extra'
          → C.open_sealed key nonce (C.seal key nonce text extra) extra' ≡ none)
      → ((nonce text extra : List ℕ)
          → length nonce ≡ 8
          → length (C.seal key nonce text extra) ≡ length text + overhead)
      → (sent : List ℕ) × (encrypt (tls13 writer key overhead n) [] packet random
          ≡ ok (sent, tls13 writer key overhead (n + 1)))
        × (decrypt (tls13 reader key overhead n) sent ≡ err (alert Alert.bad_record_mac))
  decrypt-encrypt_nil writer reader key overhead n (h0 ∷ h1 ∷ h2 ∷ h3 ∷ h4 ∷ rest) random room
        enough refuses long =
      let packet = h0 ∷ h1 ∷ h2 ∷ h3 ∷ h4 ∷ rest in
      let m = length packet + 1 + overhead in
      let sealed = C.seal key (be 8 n) (rest ++ (h0 ∷ [])) (sealed_header h1 h2 m) in
      let m' : length sealed ≡ length rest + 1 + overhead = omega (
        arith,
        long (be 8 n) (rest ++ (h0 ∷ [])) (sealed_header h1 h2 m) (length-be 8 n),
        length-append rest (h0 ∷ []),
      ) in
      (
        sealed_header h1 h2 (length sealed) ++ sealed,
        encrypt-tls13 writer key overhead n [] packet h0 h1 h2 h3 h4 rest random room refl,
        decrypt-tls13_forged reader key overhead n h1 h2 (length sealed) sealed (
            refuses _ _ _ _ (length-be 8 n)
              (sealed_header-injective h1 h2 m (length sealed) (omega (arith, m')))),
      )
  decrypt-encrypt_nil writer reader key overhead n [] random room enough refuses long =
      absurd (omega arith)
  decrypt-encrypt_nil writer reader key overhead n (a ∷ []) random room enough refuses long =
      absurd (omega arith)
  decrypt-encrypt_nil writer reader key overhead n (a ∷ b ∷ []) random room enough refuses long =
      absurd (omega arith)
  decrypt-encrypt_nil writer reader key overhead n (a ∷ b ∷ c ∷ []) random room enough refuses
        long =
      absurd (omega arith)
  decrypt-encrypt_nil writer reader key overhead n (a ∷ b ∷ c ∷ d ∷ []) random room enough refuses
        long =
      absurd (omega arith)

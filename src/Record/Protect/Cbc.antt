-- ===== src/Record/Protect/Cbc.antt =====
-- `encrypt` and `decrypt` of a block cipher in CBC mode with a MAC, with the explicit IV of TLS 1.1 and 1.2.
use disguise.Common.{
  ℕ, ◌+◌, ◌-◌, ◌%◌, ◌^◌, ◌<◌, ◌≤◌, ◌≡◌, ◌⊎◌, inl, inr, ◌≢◌, refl, sym, List, [], ◌∷◌, ◌++◌, false,
  ltb, ◌==◌, All, some, length, length-append, take, drop, take_append_left, drop_append_left, ok,
  not-==, le→leb, lt→ltb, arith,
}
use disguise.Common.Bytes.{IsByte, be, slice, slice_from}
use disguise.Common.Crypto.{Crypto}
use disguise.Framing.Padding.{random_bytes}
use disguise.Framing.Padding.Shape.{length-random_bytes}
use disguise.Record.{
  cbc, HalfConn, Mac, inc_seq, explicit_nonce_len, nonce_len, round_up, version_tls11,
  version_tls13,
}
use disguise.Record.Protect.{
  with_length, read_random, explicit_nonce, encrypt_with, encrypt_by, encrypt, decrypt_with,
  inner_type, check_mac, decrypt_by, decrypt,
}
use disguise.Record.Sequence.{inc_seq-be}
use disguise.Record.Protect.CbcText.{same_bytes_refl, padding_for, fill, mac_of, plain, plain_lem}

module _ ⦃C : Crypto⦄ where
  abbrev pub cbc_half : HalfConn → ℕ → C.Key → ℕ → Mac → ℕ → HalfConn
  cbc_half hc version key block m n = record hc {
    version = version;
    cipher = some (cbc key block);
    mac = some m;
    seq = be 8 n;
  }

  counted :
      (hc : HalfConn) (version : ℕ) (key : C.Key) (block : ℕ) (m : Mac) (n : ℕ)
      → n + 1 < 256 ^ 8
      → inc_seq (cbc_half hc version key block m n) ≡ ok (cbc_half hc version key block m (n + 1))
  counted hc version key block m n room =
      rw (lt→ltb (n + 1) (256 ^ 8) room) at
        (inc_seq-be (cbc_half hc version key block m n) n (omega (arith, room)) refl)

  cbc-encrypt :
      (hc : HalfConn) (version : ℕ) (key : C.Key) (block : ℕ) (m : Mac) (n t v1 v2 : ℕ)
      (payload : List ℕ) (source : ℕ → ℕ)
      → n + 1 < 256 ^ 8
      → version_tls11 ≤ version
      → (block ≡ 8) ⊎ (block ≡ 16)
      → let nonce = random_bytes source 0 block in
        let sealed = C.crypt_blocks (C.set_iv key nonce) (plain m block n t v1 v2 payload) in
        encrypt
          (cbc_half hc version key block m n)
          (t ∷ v1 ∷ v2 ∷ be 2 (length payload))
          payload
          (some source)
        ≡ ok (
          t ∷ v1 ∷ v2 ∷ (be 2 (length (nonce ++ sealed.0)) ++ (nonce ++ sealed.0)),
          cbc_half hc version sealed.1 block m (n + 1),
        )
  unfolding encrypt encrypt_by explicit_nonce explicit_nonce_len nonce_len encrypt_with with_length
      read_random slice slice_from be
  cbc-encrypt hc version key block m n t v1 v2 payload source room new (inl e) = ground (
    arith,
    counted hc version
        (C.crypt_blocks (C.set_iv key (random_bytes source 0 block))
          (plain m block n t v1 v2 payload)).1
        block m n room,
    e,
    length-random_bytes source 0 block,
  )
  cbc-encrypt hc version key block m n t v1 v2 payload source room new (inr e) = ground (
    arith,
    counted hc version
        (C.crypt_blocks (C.set_iv key (random_bytes source 0 block))
          (plain m block n t v1 v2 payload)).1
        block m n room,
    e,
    length-random_bytes source 0 block,
  )

  cbc-decrypt :
      (hc : HalfConn) (version : ℕ) (key : C.Key) (block : ℕ) (m : Mac) (n t v1 v2 k : ℕ)
      (payload nonce sealed : List ℕ)
      → n + 1 < 256 ^ 8
      → version_tls11 ≤ version
      → version ≢ version_tls13
      → (block ≡ 8) ⊎ (block ≡ 16)
      → All IsByte payload
      → length payload < 65536
      → m.size < 65536
      → ((text : List ℕ) → length (m.digest text) ≡ m.size)
      → ((text : List ℕ) → All IsByte (m.digest text))
      → length nonce ≡ block
      → length sealed ≡ length (plain m block n t v1 v2 payload)
      → (C.crypt_blocks (C.set_iv key nonce) sealed).0 ≡ plain m block n t v1 v2 payload
      → decrypt (cbc_half hc version key block m n) (t ∷ v1 ∷ v2 ∷ (be 2 k ++ (nonce ++ sealed)))
        ≡ ok (
          payload,
          t,
          cbc_half hc version (C.crypt_blocks (C.set_iv key nonce) sealed).1 block m (n + 1),
        )
  unfolding decrypt decrypt_by explicit_nonce_len nonce_len decrypt_with inner_type check_mac
      with_length slice slice_from be
  cbc-decrypt hc version key block m n t v1 v2 k payload nonce sealed room new old sizes bytes short
        small long mac_bytes iv same opens =
      let text = plain m block n t v1 v2 payload in
      let p = padding_for block (length payload + m.size) in
      let packet = t ∷ v1 ∷ v2 ∷ (be 2 k ++ (nonce ++ sealed)) in
      let half = cbc_half hc version key block m n in
      let crypted = C.crypt_blocks (C.set_iv key nonce) sealed in
      let (measured, padding, front, back) =
        plain_lem m block n t v1 v2 payload sizes bytes short small long mac_bytes in
      let (some_left, few, whole, blocks, enough) =
        fill block (length payload + m.size) m.size sizes (omega arith) in
      let total : length (nonce ++ sealed) ≡ block + (length payload + m.size + p) =
        omega (arith, length-append nonce sealed, iv, same, measured) in
      let cut : length payload + m.size + p - m.size - p ≡ length payload = omega arith in
      let e1 : take block (nonce ++ sealed) ≡ nonce =
        take_append_left block nonce sealed (sym iv) in
      let e2 : drop block (nonce ++ sealed) ≡ sealed =
        drop_append_left block nonce sealed (sym iv) in
      let nonzero : (block == 0) ≡ false = ground arith in
      let room_left : ltb (block + (length payload + m.size + p))
            (block + round_up (m.size + 1) block)
          ≡ false =
        ground (arith, enough) in
      let opened : decrypt_with half (cbc key block) block packet (nonce ++ sealed)
          ≡ ok (record {
            payload = text;
            plaintext = [];
            padding_len = p;
            padding_good = 255;
            cipher = cbc crypted.1 block;
          }) =
        rw (nonzero, e1, e2, opens, padding, total, whole, room_left) refl in
      let fits : ltb (length text) m.size ≡ false = ground (arith, measured) in
      let checked : check_mac half (some m) packet text [] p 255 ≡ ok payload =
        rw (fits, measured, cut, front, back)
          (ground (arith, same_bytes_refl (mac_of m n t v1 v2 payload))) in
      ground (
        arith,
        opened,
        checked,
        counted hc version crypted.1 block m n room,
        le→leb version_tls11 version new,
        not-== old,
      )

  -- Under TLS 1.1 or 1.2, with a block cipher of 8 or 16 bytes in CBC mode, what `encrypt` makes
  -- of a payload below 2 ^ 16 bytes, behind a header with its type and length, `decrypt` of the
  -- other side with the same sequence number opens to the payload and the type, and both sequence
  -- numbers go up by one. The random source does not fail, the MAC gives as many bytes as it says,
  -- fewer than 2 ^ 16, and for each IV the one block cipher undoes the other on whole blocks and
  -- keeps their number.
  pub decrypt-encrypt_cbc :
      (writer reader : HalfConn) (version : ℕ) (w r : C.Key) (block : ℕ) (m : Mac) (n t v1 v2 : ℕ)
      (payload : List ℕ) (source : ℕ → ℕ)
      → n + 1 < 256 ^ 8
      → version_tls11 ≤ version
      → version ≢ version_tls13
      → (block ≡ 8) ⊎ (block ≡ 16)
      → All IsByte payload
      → length payload < 65536
      → m.size < 65536
      → ((text : List ℕ) → length (m.digest text) ≡ m.size)
      → ((text : List ℕ) → All IsByte (m.digest text))
      → ((key : C.Key) (text : List ℕ)
          → length text % block ≡ 0
          → length (C.crypt_blocks key text).0 ≡ length text)
      → ((iv text : List ℕ)
          → length iv ≡ block
          → length text % block ≡ 0
          → (C.crypt_blocks (C.set_iv r iv) (C.crypt_blocks (C.set_iv w iv) text).0).0 ≡ text)
      → (packet : List ℕ) × (w' : C.Key) × (r' : C.Key) × (encrypt
            (cbc_half writer version w block m n)
            (t ∷ v1 ∷ v2 ∷ be 2 (length payload))
            payload
            (some source)
          ≡ ok (packet, cbc_half writer version w' block m (n + 1)))
        × (decrypt (cbc_half reader version r block m n) packet
            ≡ ok (payload, t, cbc_half reader version r' block m (n + 1)))
  decrypt-encrypt_cbc writer reader version w r block m n t v1 v2 payload source room new old sizes
        bytes short small long mac_bytes same inverts =
      let iv = random_bytes source 0 block in
      let text = plain m block n t v1 v2 payload in
      let sealed = C.crypt_blocks (C.set_iv w iv) text in
      let iv_len = length-random_bytes source 0 block in
      let (measured, padding, front, back) =
        plain_lem m block n t v1 v2 payload sizes bytes short small long mac_bytes in
      let (some_left, few, whole, blocks, enough) =
        fill block (length payload + m.size) m.size sizes (omega arith) in
      let whole_text : length text % block ≡ 0 = rw measured blocks in
      (
        t ∷ v1 ∷ v2 ∷ (be 2 (length (iv ++ sealed.0)) ++ (iv ++ sealed.0)),
        sealed.1,
        (C.crypt_blocks (C.set_iv r iv) sealed.0).1,
        cbc-encrypt writer version w block m n t v1 v2 payload source room new sizes,
        cbc-decrypt reader version r block m n t v1 v2 (length (iv ++ sealed.0)) payload iv sealed.0
            room new old sizes bytes short small long mac_bytes iv_len (same _ _ whole_text)
            (inverts iv text iv_len whole_text),
      )

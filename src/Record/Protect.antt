-- ===== src/Record/Protect.antt =====
-- `encrypt` and `decrypt` of conn.go, with `tls10MAC` of cipher_suites.go. What Go writes over the buffer of
-- a record is a new list here.
pub mod Cbc
pub mod CbcText
pub mod Ends
pub mod Tls12
pub mod Tls13
use disguise.Alert as Alert
use disguise.Common.{
  ℕ, zero, suc, ◌+◌, ◌-◌, ◌*◌, ◌/◌, ◌%◌, List, [], ◌∷◌, ◌++◌, Bool, true, false, not, ◌&&◌, ◌||◌,
  ltb, ◌==◌, if◌then◌else◌, Option, none, some, length, get_elem?, get_or, set, take, drop,
  replicate, copy, Outcome, ok, err, alert, random_failed, ◌>>=◌, ◌>>◌, check, or_panic,
}
use disguise.Common.Bytes.{be, slice, slice_from}
use disguise.Common.Crypto.{Crypto}
use disguise.Framing.Padding.{random_bytes}
use disguise.Record.{
  Cipher, stream, aead, cbc, Mac, HalfConn, inc_seq, explicit_nonce_len, round_up, version_tls13,
  max_plaintext, record_header_len, record_type_change_cipher_spec, record_type_application_data,
}
use disguise.Record.Padding.{extract_padding}

abbrev pub tls10_mac : Mac → List ℕ → List ℕ → List ℕ → List ℕ
tls10_mac m seq header body = m.digest (seq ++ (header ++ body))

-- The bytes 3 and 4 of a record.
unfoldable pub with_length : List ℕ → ℕ → Outcome (List ℕ)
with_length out n = do check (ltb 4 (length out)); ok (set (set out 3 (n / 256 % 256)) 4 (n % 256))

-- `io.ReadFull` of `n` bytes; `none` is its error.
unfoldable pub read_random : ℕ → Option (ℕ → ℕ) → Outcome (List ℕ)
unfolding random_bytes
read_random n none = err random_failed
read_random n (some source) = ok (random_bytes source 0 n)

-- `subtle.ConstantTimeCompare`.
unfoldable pub same_bytes : List ℕ → List ℕ → Bool
same_bytes [] [] = true
same_bytes [] (y ∷ ys) = false
same_bytes (x ∷ xs) [] = false
same_bytes (x ∷ xs) (y ∷ ys) = x == y && same_bytes xs ys

-- The search for the content type from the end, with the bytes that are left to look at.
unfoldable pub strip : ℕ → List ℕ → ℕ → Outcome (List ℕ × ℕ)
strip zero text type = ok (text, type)
strip (suc i) text type =
    let earlier = strip i text type in
    if not (get_or text i 0 == 0)
    then ok (take i text, get_or text i 0)
    else if i == 0
    then err (alert Alert.unexpected_message)
    else earlier

module _ ⦃C : Crypto⦄ where
  abbrev pub is_cbc : Cipher → Bool
  is_cbc (stream key) = false
  is_cbc (aead key nonce overhead) = false
  is_cbc (cbc key block) = true

  unfoldable pub explicit_nonce : HalfConn → Cipher → ℕ → Option (ℕ → ℕ) → Outcome (List ℕ)
  unfolding read_random
  explicit_nonce hc c n random =
      if n == 0
      then ok []
      else if not (is_cbc c) && ltb n 16
      then ok (copy (replicate n 0) hc.seq)
      else read_random n random

  -- The switch of `encrypt`: `out` is the record with its nonce, and what follows it is appended.
  unfoldable pub encrypt_with :
      HalfConn → Cipher → List ℕ → List ℕ → List ℕ → Outcome (List ℕ × Cipher)
  unfolding with_length slice slice_from
  encrypt_with hc (stream key) out nonce payload = do
    m ← or_panic hc.mac
    header ← slice 0 record_header_len out []
    let sum = tls10_mac m hc.seq header payload
    let (a, key1) = C.xor_key_stream key payload
    let (b, key2) = C.xor_key_stream key1 sum
    ok (out ++ (a ++ b), stream key2)
  encrypt_with hc (aead key nonce_len overhead) out explicit payload =
      let nonce = if length explicit == 0 then hc.seq else explicit in
      let tls13 : Outcome (List ℕ × Cipher) = do
        type ← or_panic (get_elem? (out ++ payload) 0)
        sized ←
            with_length (set (out ++ (payload ++ (type ∷ []))) 0 record_type_application_data)
              (length payload + 1 + overhead)
        header ← slice 0 record_header_len sized []
        inner ← slice_from record_header_len sized
        ok (header ++ C.seal key nonce inner header, aead key nonce_len overhead)
      in let earlier : Outcome (List ℕ × Cipher) = do
        header ← slice 0 record_header_len out []
        ok (out ++ C.seal key nonce payload (hc.seq ++ header), aead key nonce_len overhead)
        in if hc.version == version_tls13 then tls13 else earlier
  encrypt_with hc (cbc key block) out nonce payload = do
    m ← or_panic hc.mac
    header ← slice 0 record_header_len out []
    let sum = tls10_mac m hc.seq header payload
    let padding_len = block - (length payload + length sum) % block
    let dst = payload ++ (sum ++ replicate padding_len ((padding_len - 1) % 256))
    let key1 = if length nonce == 0 then key else C.set_iv key nonce
    let (blocks, key2) = C.crypt_blocks key1 dst
    ok (out ++ blocks, cbc key2 block)

  unfoldable pub encrypt_by :
      HalfConn → Option Cipher → List ℕ → List ℕ → Option (ℕ → ℕ) → Outcome (List ℕ × HalfConn)
  unfolding encrypt_with explicit_nonce with_length
  encrypt_by hc none out payload random = ok (out ++ payload, hc)
  encrypt_by hc (some c) out payload random = do
    nonce ← explicit_nonce hc c (explicit_nonce_len hc) random
    (sealed, c') ← encrypt_with hc c (out ++ nonce) nonce payload
    final ← with_length sealed (length sealed - record_header_len)
    hc' ← inc_seq (record hc { cipher = some c' })
    ok (final, hc')

  unfoldable pub encrypt : HalfConn → List ℕ → List ℕ → Option (ℕ → ℕ) → Outcome (List ℕ × HalfConn)
  unfolding encrypt_by
  encrypt hc out payload random = encrypt_by hc hc.cipher out payload random

  -- What the switch of `decrypt` sets.
  pub record Opened : Type 0 where
    pub payload : List ℕ
    pub plaintext : List ℕ
    pub padding_len : ℕ
    pub padding_good : ℕ
    pub cipher : Cipher

  unfoldable pub or_bad_mac : Option (List ℕ) → Outcome (List ℕ)
  or_bad_mac none = err (alert Alert.bad_record_mac)
  or_bad_mac (some text) = ok text

  -- The additional data of `Open`.
  unfoldable pub additional : HalfConn → List ℕ → ℕ → Outcome (List ℕ)
  unfolding slice
  additional hc sealed n =
      let earlier : Outcome (List ℕ) = do
        header ← slice 0 3 sealed []
        ok (hc.seq ++ (header ++ be 2 n))
      in if hc.version == version_tls13 then slice 0 record_header_len sealed [] else earlier

  unfoldable pub decrypt_with : HalfConn → Cipher → ℕ → List ℕ → List ℕ → Outcome Opened
  unfolding or_bad_mac additional
  decrypt_with hc (stream key) nonce_len sealed payload =
      let (text, key1) = C.xor_key_stream key payload in
      ok (record {
        payload = text;
        plaintext = [];
        padding_len = 0;
        padding_good = 255;
        cipher = stream key1;
      })
  decrypt_with hc (aead key n overhead) nonce_len sealed payload =
      let nonce = if nonce_len == 0 then hc.seq else take nonce_len payload in
      let text = drop nonce_len payload in
      let open_it : Outcome Opened = do
        extra ← additional hc sealed ((length text + 65536 - overhead) % 65536)
        plaintext ← or_bad_mac (C.open_sealed key nonce text extra)
        ok (record {
          payload = text;
          plaintext = plaintext;
          padding_len = 0;
          padding_good = 255;
          cipher = aead key n overhead;
        })
      in if ltb (length payload) nonce_len then err (alert Alert.bad_record_mac) else open_it
  decrypt_with hc (cbc key block) nonce_len sealed payload = do
    m ← or_panic hc.mac
    let least = nonce_len + round_up (m.size + 1) block
    let key1 = if nonce_len == 0 then key else C.set_iv key (take nonce_len payload)
    let (text, key2) = C.crypt_blocks key1 (drop nonce_len payload)
    let (padding_len, good) = extract_padding text
    if not (length payload % block == 0) || ltb (length payload) least
        then err (alert Alert.bad_record_mac)
        else ok (record {
          payload = text;
          plaintext = [];
          padding_len = padding_len;
          padding_good = good;
          cipher = cbc key2 block;
        })

  -- The content type of TLS 1.3.
  unfoldable pub inner_type : HalfConn → List ℕ → ℕ → Outcome (List ℕ × ℕ)
  unfolding strip
  inner_type hc plaintext type =
      let inner = strip (length plaintext) plaintext type in
      if not (hc.version == version_tls13)
      then ok (plaintext, type)
      else if not (type == record_type_application_data)
      then err (alert Alert.unexpected_message)
      else if ltb (max_plaintext + 1) (length plaintext)
      then err (alert Alert.record_overflow)
      else inner

  -- The MAC. `subtle.ConstantTimeSelect` makes a negative length 0, as `-` on ℕ does.
  unfoldable pub check_mac :
      HalfConn → Option Mac → List ℕ → List ℕ → List ℕ → ℕ → ℕ → Outcome (List ℕ)
  unfolding with_length same_bytes
  check_mac hc none sealed payload plaintext padding_len good = ok plaintext
  check_mac hc (some m) sealed payload plaintext padding_len good =
      let n = length payload - m.size - padding_len in
      let compared : Outcome (List ℕ) = do
        sized ← with_length sealed n
        let sum = tls10_mac m hc.seq (take record_header_len sized) (take n payload)
        if same_bytes sum (take m.size (drop n payload)) && good % 2 == 1
            then ok (take n payload)
            else err (alert Alert.bad_record_mac)
      in if ltb (length payload) m.size then err (alert Alert.bad_record_mac) else compared

  unfoldable pub decrypt_by :
      HalfConn → Option Cipher → ℕ → List ℕ → List ℕ → Outcome (List ℕ × ℕ × HalfConn)
  unfolding decrypt_with inner_type check_mac
  decrypt_by hc none type sealed payload = do
    plaintext ← check_mac hc hc.mac sealed payload payload 0 255
    hc' ← inc_seq hc
    ok (plaintext, type, hc')
  decrypt_by hc (some c) type sealed payload = do
    o ← decrypt_with hc c (explicit_nonce_len hc) sealed payload
    (inner, type') ← inner_type hc o.plaintext type
    plaintext ← check_mac hc hc.mac sealed o.payload inner o.padding_len o.padding_good
    hc' ← inc_seq (record hc { cipher = some o.cipher })
    ok (plaintext, type', hc')

  unfoldable pub decrypt : HalfConn → List ℕ → Outcome (List ℕ × ℕ × HalfConn)
  unfolding decrypt_by slice_from
  decrypt hc sealed = do
    type ← or_panic (get_elem? sealed 0)
    payload ← slice_from record_header_len sealed
    let opened = decrypt_by hc hc.cipher type sealed payload
    if hc.version == version_tls13 && type == record_type_change_cipher_spec
        then ok (payload, type, hc)
        else opened

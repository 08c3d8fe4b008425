-- ===== src/Record/Sizes.antt =====
-- `maxPayloadSizeForWrite` of conn.go.
use disguise.Common.Crypto.{Crypto}
use disguise.Common.{
  ℕ, ◌+◌, ◌-◌, ◌*◌, ◌/◌, ◌%◌, ◌≤◌, ◌<◌, ◌≡◌, refl, Bool, false, not, ◌||◌, ltb, leb, ◌==◌,
  if◌then◌else◌, Bool-cases, ◌⊎◌, inl, inr, Option, none, some, Outcome, ok, ◌>>=◌, or_panic, arith,
}
use disguise.Record.{
  Cipher, stream, aead, cbc, HalfConn, mac_size, max_plaintext, record_header_len,
  record_type_application_data, version_tls13, nonce_len, explicit_nonce_len,
}

abbrev tcp_mss_estimate : ℕ
tcp_mss_estimate = 1208

abbrev record_size_boost_threshold : ℕ
record_size_boost_threshold = 131072

module _ ⦃C : Crypto⦄ where
  -- What the size of a record depends on, of `Conn` and its configuration.
  pub record Sender : Type 0 where
    pub vers : ℕ
    pub dynamic_record_sizing_disabled : Bool
    pub bytes_sent : ℕ
    pub packets_sent : ℕ
    pub out : HalfConn

  -- The TLS overheads are subtracted. Where they are more than a segment the Go number is negative, and
  -- here it is 0. Block sizes are powers of two.
  unfoldable pub without_overhead : ℕ → Option ℕ → Option Cipher → Outcome ℕ
  without_overhead bytes mac none = ok bytes
  without_overhead bytes mac (some (stream key)) = do m ← or_panic mac; ok (bytes - m)
  without_overhead bytes mac (some (aead key nonce overhead)) = ok (bytes - overhead)
  without_overhead bytes mac (some (cbc key block)) = do
    m ← or_panic mac
    ok (bytes / block * block - 1 - m)

  unfoldable pub max_payload_size_for_write : Sender → ℕ → Outcome (ℕ × Sender)
  unfolding without_overhead
  max_payload_size_for_write c type =
      let grown : Outcome (ℕ × Sender) = do
        bytes ←
            without_overhead (tcp_mss_estimate - record_header_len - explicit_nonce_len c.out)
              (mac_size c.out.mac) c.out.cipher
        let payload = if c.vers == version_tls13 then bytes - 1 else bytes
        let n = payload * (c.packets_sent + 1)
        let c' = record c { packets_sent = c.packets_sent + 1 }
        let size = if ltb max_plaintext n then max_plaintext else n
        ok (if ltb 1000 c.packets_sent then max_plaintext else size, c')
      in if c.dynamic_record_sizing_disabled || not (type == record_type_application_data)
        then ok (max_plaintext, c)
        else if leb record_size_boost_threshold c.bytes_sent
        then ok (max_plaintext, c)
        else grown

  -- The sizes of the ciphers and MACs that TLS uses, and a MAC where one is needed.
  abbrev pub IsSized : Option Cipher → Option ℕ → Type 0
  IsSized none mac = Unit {0}
  IsSized (some (stream key)) mac = (m : ℕ) × (mac ≡ some m) × (m ≤ 64)
  IsSized (some (aead key nonce overhead)) mac = nonce + overhead ≤ 64
  IsSized (some (cbc key block)) mac =
      ((block ≡ 8) ⊎ (block ≡ 16)) × (m : ℕ) × (mac ≡ some m) × (m ≤ 64)

  -- The length of the encrypted record of `n` bytes and, under TLS 1.3, the byte of its type.
  unfoldable pub encrypted_length : ℕ → Option ℕ → Option Cipher → ℕ
  encrypted_length n mac none = n
  encrypted_length n none (some (stream key)) = n
  encrypted_length n (some m) (some (stream key)) = n + m
  encrypted_length n mac (some (aead key nonce overhead)) = n + overhead
  encrypted_length n none (some (cbc key block)) = n
  encrypted_length n (some m) (some (cbc key block)) = n + m + (block - (n + m) % block)

  -- A payload for one segment, with the header, the nonce, the MAC and the padding.
  abbrev pub FitsSegment : ℕ → Option ℕ → Option Cipher → ℕ → Type 0
  FitsSegment version mac cipher n =
      (1000 ≤ n)
      × (n ≤ 1203)
      × (5 + nonce_len version cipher + encrypted_length n mac cipher ≤ 1208)

  blocks :
      (key : C.Key) (version block m : ℕ)
      → (block ≡ 8) ⊎ (block ≡ 16)
      → m ≤ 64
      → FitsSegment version
          (some m)
          (some (cbc key block))
          ((1203 - nonce_len version (some (cbc key block))) / block * block - 1 - m)
  unfolding encrypted_length nonce_len
  blocks key version block m (inl e) small = rw e (ground arith)
  blocks key version block m (inr e) small = rw e (ground arith)

  without_overhead_lem :
      (version : ℕ) (mac : Option ℕ) (cipher : Option Cipher)
      → IsSized cipher mac
      → (n : ℕ) × (without_overhead (1203 - nonce_len version cipher) mac cipher ≡ ok n)
        × FitsSegment version mac cipher n
  unfolding without_overhead encrypted_length nonce_len
  without_overhead_lem version mac none h = (1203, refl, omega arith)
  without_overhead_lem version mac (some (stream key)) (m, e, small) =
      (1203 - m, rw e, rw e (omega arith))
  without_overhead_lem version mac (some (aead key nonce overhead)) h =
      (1203 - nonce - overhead, refl, omega arith)
  without_overhead_lem version mac (some (cbc key block)) (sizes, m, e, small) = (
    (1203 - nonce_len version (some (cbc key block))) / block * block - 1 - m,
    rw e,
    rw e (blocks key version block m sizes small),
  )

  -- For a cipher and a MAC of the sizes that TLS uses, `maxPayloadSizeForWrite` does not panic.
  -- Its result is at least 1 and at most 16384, and of the sender only the count of packets can
  -- change.
  pub max_payload_size_for_write_lem :
      (c : Sender) (type : ℕ)
      → IsSized c.out.cipher (mac_size c.out.mac)
      → (n packets : ℕ) × (max_payload_size_for_write c type
          ≡ ok (n, record c { packets_sent = packets }))
        × (1 ≤ n)
        × (n ≤ max_plaintext)
  unfolding max_payload_size_for_write explicit_nonce_len
  max_payload_size_for_write_lem c type h =
      let (b, got, fits) = without_overhead_lem c.out.version (mac_size c.out.mac) c.out.cipher h in
      let (least, most, inside) = fits in
      let payload = if c.vers == version_tls13 then b - 1 else b in
      let n = payload * (c.packets_sent + 1) in
      let size = if ltb max_plaintext n then max_plaintext else n in
      let positive : 1 ≤ payload = ground arith in
      let grown : 1 ≤ n = grind (arith, positive) in
      elim (Bool-cases
        (c.dynamic_record_sizing_disabled || not (type == record_type_application_data))) [
          | inl fixed_size ↦
              (max_plaintext, c.packets_sent, rw fixed_size, omega arith, omega arith)
          | inr dynamic_size ↦ elim (Bool-cases (leb record_size_boost_threshold c.bytes_sent)) [
            | inl boosted ↦ (
              max_plaintext,
              c.packets_sent,
              rw (dynamic_size, boosted),
              omega arith,
              omega arith,
            )
            | inr small ↦ (
              if ltb 1000 c.packets_sent then max_plaintext else size,
              c.packets_sent + 1,
              rw (dynamic_size, small, got),
              ground (arith, grown),
              ground arith,
            )
          ]
        ]

  -- For a cipher and a MAC of the sizes that TLS uses, with dynamic record sizes and below the
  -- threshold of bytes sent, the payload size of the first record of application data is such that
  -- the header, the nonce, the payload, under TLS 1.3 the byte of its type, the MAC and the
  -- padding fit one segment of 1208 bytes; the payload, with that byte, has 1000 bytes at least.
  pub max_payload_size_for_write-FitsSegment :
      (c : Sender)
      → IsSized c.out.cipher (mac_size c.out.mac)
      → c.dynamic_record_sizing_disabled ≡ false
      → c.bytes_sent < 131072
      → c.packets_sent ≡ 0
      → (n : ℕ) × (max_payload_size_for_write c 23 ≡ ok (n, record c { packets_sent = 1 }))
        × FitsSegment c.out.version
            (mac_size c.out.mac)
            c.out.cipher
            (if c.vers == version_tls13 then n + 1 else n)
  unfolding max_payload_size_for_write explicit_nonce_len
  max_payload_size_for_write-FitsSegment c h dynamic_sizes little first =
      let (b, got, fits) = without_overhead_lem c.out.version (mac_size c.out.mac) c.out.cipher h in
      let (least, most, inside) = fits in
      let small : leb record_size_boost_threshold c.bytes_sent ≡ false = ground arith in
      elim (Bool-cases (c.vers == version_tls13)) [
        | inl tls13 ↦
            let one_more : b - 1 + 1 ≡ b = omega (arith, least) in
            let within : ltb max_plaintext ((b - 1) * 1) ≡ false = ground (arith, most) in
            (
              (b - 1) * 1,
              rw (dynamic_sizes, small, got, tls13, first, within),
              rw (tls13, times_one (b - 1), one_more) fits,
            )
        | inr earlier ↦
            let within : ltb max_plaintext (b * 1) ≡ false = ground (arith, most) in
            (
              b * 1,
              rw (dynamic_sizes, small, got, earlier, first, within),
              rw (earlier, times_one b) fits,
            )
      ]
    where
      times_one : (k : ℕ) → k * 1 ≡ k
      times_one k = omega arith

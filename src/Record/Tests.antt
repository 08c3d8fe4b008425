-- ===== src/Record/Tests.antt =====
-- Concrete runs of the record layer, and its theorems at concrete inputs.
use disguise.Common.{
  ℕ, ◌+◌, ◌^◌, ◌≡◌, refl, [], ◌∷◌, ltb, ◌==◌, if◌then◌else◌, false, none, some, ◌⊎◌, inr, List, ℕ,
  length, ok, err, panic, alert, arith, ◌++◌, drop, ◌≢◌,
}
use disguise.Alert.{bad_record_mac}
use disguise.Common.Bytes.{be, length-be, be-IsByte, from_be}
use disguise.Record.{Mac, cbc, HalfConn, version_tls13, inc_loop, inc_seq}
use disguise.Record.Nonce.{Aead, PrefixNonceAead, xor_seal, xor_open}
use disguise.Record.Nonce.Xored.{xor_bytes}
use disguise.Record.Nonce.Wrapped.{IsMask, record_nonce, xor_seal_lem}
use disguise.Record.Padding.{extract_padding}
use disguise.Record.Padding.Valid.{IsPadded, extract_padding_lem}
use disguise.Record.Protect.{encrypt, decrypt}
use disguise.Record.Protect.Cbc.{cbc_half, decrypt-encrypt_cbc}
use disguise.Record.Protect.Tls13.{tls13, decrypt-encrypt, decrypt-encrypt_nil}
use disguise.Record.Toy.{
  toy, swapped-swapped, length-swapped, length-seal, open_sealed-seal, open_sealed-seal_other,
}
use disguise.Record.Sequence.{inc_seq-be}
use disguise.Record.Sizes.{
  Sender, max_payload_size_for_write, FitsSegment, max_payload_size_for_write-FitsSegment,
}

abbrev sha1_like : Mac
sha1_like = record { size = 20; digest = λ text. be 20 (from_be 0 text) }

-- AES in CBC mode with HMAC-SHA1 under TLS 1.2, after 255 records.
abbrev half : HalfConn
half = record {
  failed = none;
  version = 771;
  cipher = some (cbc 3 16);
  mac = some sha1_like;
  seq = 0 ∷ 0 ∷ 0 ∷ 0 ∷ 0 ∷ 0 ∷ 0 ∷ 255 ∷ [];
  next_cipher = none;
  next_mac = none;
  traffic_secret = [];
}

abbrev sender : Sender
sender = record {
  vers = 771;
  dynamic_record_sizing_disabled = false;
  bytes_sent = 100;
  packets_sent = 0;
  out = half;
}

inc_loop-wraps : inc_loop 2 (255 ∷ 255 ∷ []) ≡ panic
unfolding inc_loop
inc_loop-wraps = refl

eight_bytes : half.seq ≡ be 8 255
unfolding be
eight_bytes = refl

inc_seq-be_example :
    inc_seq half
    ≡ (if ltb (255 + 1) (256 ^ 8) then ok (record half { seq = be 8 (255 + 1) }) else panic)
inc_seq-be_example = inc_seq-be half 255 (omega arith) eight_bytes

max_payload_size_for_write-FitsSegment_example :
    (n : ℕ) × (max_payload_size_for_write sender 23 ≡ ok (n, record sender { packets_sent = 1 }))
    × FitsSegment 771 (some 20) (some (cbc 3 16)) (if 771 == version_tls13 then n + 1 else n)
max_payload_size_for_write-FitsSegment_example =
    max_payload_size_for_write-FitsSegment sender (inr refl, 20, refl, omega arith) refl
      (omega arith) refl

extract_padding_lem_example :
    (IsPadded (7 ∷ 2 ∷ 2 ∷ 2 ∷ []) × (extract_padding (7 ∷ 2 ∷ 2 ∷ 2 ∷ []) ≡ (3, 255)))
    ⊎ ((IsPadded (7 ∷ 2 ∷ 2 ∷ 2 ∷ []) → ⊥) × (extract_padding (7 ∷ 2 ∷ 2 ∷ 2 ∷ []) ≡ (1, 0)))
extract_padding_lem_example =
    extract_padding_lem (7 ∷ 2 ∷ 2 ∷ 2 ∷ [])
      (omega arith, (omega arith, (omega arith, (omega arith, tt)))) (omega arith) (omega arith)

decrypt-encrypt_example :
    (packet : List ℕ) × (encrypt (tls13 half 3 1 6) (23 ∷ 3 ∷ 3 ∷ 0 ∷ 0 ∷ []) (104 ∷ 105 ∷ []) none
      ≡ ok (packet, tls13 half 3 1 (6 + 1)))
    × (decrypt (tls13 half 3 1 6) packet ≡ ok (104 ∷ 105 ∷ [], 23, tls13 half 3 1 (6 + 1)))
decrypt-encrypt_example =
    decrypt-encrypt half half 3 1 6 23 3 3 0 0 (104 ∷ 105 ∷ []) none (omega arith) (omega arith)
      (omega arith) (λ nonce text extra h. open_sealed-seal 3 nonce text extra)
      (λ nonce text extra h. length-seal 3 nonce text extra)

decrypt-encrypt_nil_example :
    (sent : List ℕ) × (encrypt (tls13 half 3 1 6) [] (1 ∷ 2 ∷ 3 ∷ 4 ∷ 5 ∷ 6 ∷ []) none
      ≡ ok (sent, tls13 half 3 1 (6 + 1)))
    × (decrypt (tls13 half 3 1 6) sent ≡ err (alert bad_record_mac))
decrypt-encrypt_nil_example =
    decrypt-encrypt_nil half half 3 1 6 (1 ∷ 2 ∷ 3 ∷ 4 ∷ 5 ∷ 6 ∷ []) none (omega arith)
      (omega arith)
      (λ nonce text extra extra' h differ. open_sealed-seal_other 3 nonce text extra extra' differ)
      (λ nonce text extra h. length-seal 3 nonce text extra)

decrypt-encrypt_cbc_example :
    (packet : List ℕ) × (w' : ℕ) × (r' : ℕ) × (encrypt
        (cbc_half half 771 3 16 sha1_like 6)
        (23 ∷ 3 ∷ 3 ∷ be 2 (length {A = ℕ} (104 ∷ 105 ∷ [])))
        (104 ∷ 105 ∷ [])
        (some (λ i. i))
      ≡ ok (packet, cbc_half half 771 w' 16 sha1_like (6 + 1)))
    × (decrypt (cbc_half half 771 3 16 sha1_like 6) packet
        ≡ ok (104 ∷ 105 ∷ [], 23, cbc_half half 771 r' 16 sha1_like (6 + 1)))
decrypt-encrypt_cbc_example =
    decrypt-encrypt_cbc half half 771 3 3 16 sha1_like 6 23 3 3 (104 ∷ 105 ∷ []) (λ i. i)
      (omega arith) (omega arith) (omega arith) (inr refl) (omega arith, (omega arith, tt))
      (omega arith) (omega arith) (λ text. length-be 20 (from_be 0 text))
      (λ text. be-IsByte 20 (from_be 0 text)) (λ key text h. length-swapped text)
      (λ iv text h k. swapped-swapped text)

-- An AEAD that puts the nonce before the text.
abbrev plain_aead : Aead
plain_aead = record {
  seal = λ iv text additional. iv ++ text;
  open_sealed = λ iv text additional. some (drop 12 text);
}

abbrev mask : List ℕ
mask = 200 ∷ 2 ∷ 3 ∷ 4 ∷ 5 ∷ 6 ∷ 7 ∷ 8 ∷ 9 ∷ 10 ∷ 11 ∷ 12 ∷ []

mask-IsMask : IsMask mask
mask-IsMask = record {
  long = refl;
  bytes = (
    omega arith,
    (
      omega arith,
      (
        omega arith,
        (
          omega arith,
          (
            omega arith,
            (
              omega arith,
              (
                omega arith,
                (omega arith, (omega arith, (omega arith, (omega arith, (omega arith, tt))))),
              ),
            ),
          ),
        ),
      ),
    ),
  );
}

xor_seal_lem_example :
    (xor_seal (record { nonce_mask = mask; aead = plain_aead }) (be 8 258) (104 ∷ []) []
      ≡ ok (record { nonce_mask = mask; aead = plain_aead }, record_nonce mask 258 ++ (104 ∷ [])))
    × (xor_open (record { nonce_mask = mask; aead = plain_aead }) (be 8 258) (104 ∷ []) []
        ≡ ok (record { nonce_mask = mask; aead = plain_aead }, some []))
    × (record_nonce mask 258 ≢ record_nonce mask 2)
xor_seal_lem_example =
    xor_seal_lem (record { nonce_mask = mask; aead = plain_aead }) 258 2 (104 ∷ []) [] mask-IsMask
      (omega arith) (omega arith) (omega arith)

nonce_258 : record_nonce mask 258 ≡ 200 ∷ 2 ∷ 3 ∷ 4 ∷ 5 ∷ 6 ∷ 7 ∷ 8 ∷ 9 ∷ 10 ∷ 10 ∷ 14 ∷ []
unfolding record_nonce xor_bytes be
nonce_258 = refl

abbrev writer : PrefixNonceAead
writer = record { nonce = mask; aead = plain_aead }

abbrev reader : PrefixNonceAead
reader = record { nonce = 200 ∷ 2 ∷ 3 ∷ 4 ∷ 0 ∷ 0 ∷ 0 ∷ 0 ∷ 0 ∷ 0 ∷ 0 ∷ 0 ∷ []; aead = plain_aead }

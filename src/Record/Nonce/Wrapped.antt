-- ===== src/Record/Nonce/Wrapped.antt =====
-- The nonces of TLS: each record has its own, and what one side seals the other side opens.
use disguise.Common.{
  ℕ, ◌^◌, ◌<◌, ◌≡◌, ◌≢◌, refl, sym, ap, ◌∙◌, List, [], ◌∷◌, ◌++◌, some, ok, length, length-append,
  take, drop, replicate, copy_from, copy_from_lem, copy_full, length-drop, length-take, All, arith,
}
use disguise.Common.Bytes.{IsByte, be, length-be, be-IsByte, from_be, from_be-be}
use Prim.Native.Nat.{bit_xor}
use disguise.Record.Nonce.{
  XorNonceAead, PrefixNonceAead, with_nonce, prefix_seal, prefix_open, xor_loop, xor_seal, xor_open,
}
use disguise.Record.Nonce.Xored.{
  xor_bytes, xor_laws, length-xor_bytes, xor_bytes-IsByte, xor_bytes-back, xor_bytes-other,
  xor_loop_lem,
}

-- The nonce of RFC 8446 for the record of number `n`: the number, padded with zeros on the left to the
-- length of the mask, exclusive or the mask.
unfoldable pub record_nonce : List ℕ → ℕ → List ℕ
record_nonce mask n = xor_bytes mask (replicate 4 0 ++ be 8 n)

-- A mask of 12 bytes.
pub record IsMask (mask : List ℕ) : Type 0 where
  pub long : length mask ≡ 12
  pub bytes : All IsByte mask

padded_length : (n : ℕ) → length (replicate 4 0 ++ be 8 n) ≡ 12
padded_length n = omega (arith, length-be 8 n)

padded_bytes : (n : ℕ) → All IsByte (replicate 4 0 ++ be 8 n)
padded_bytes n = (omega arith, (omega arith, (omega arith, (omega arith, be-IsByte 8 n))))

-- The loop makes the nonce of the record.
xor_loop-record_nonce :
    (mask : List ℕ) (n : ℕ) → IsMask mask → xor_loop 4 (be 8 n) mask ≡ ok (record_nonce mask n)
unfolding record_nonce xor_bytes
xor_loop-record_nonce (a ∷ b ∷ c ∷ d ∷ rest) n h =
    let (ha, (hb, (hc, (hd, hr)))) = h.bytes in
    let zeros : (x : ℕ) → IsByte x → bit_xor x 0 ≡ x =
      λ x k. (xor_laws x 0 k (omega arith)).neutral in
    xor_loop_lem (a ∷ b ∷ c ∷ d ∷ []) rest (be 8 n) (omega (arith, h.long, length-be 8 n))
    ∙ rw (zeros a ha, zeros b hb, zeros c hc, zeros d hd) refl
xor_loop-record_nonce [] n h = absurd (omega (arith, h.long))
xor_loop-record_nonce (a ∷ []) n h = absurd (omega (arith, h.long))
xor_loop-record_nonce (a ∷ b ∷ []) n h = absurd (omega (arith, h.long))
xor_loop-record_nonce (a ∷ b ∷ c ∷ []) n h = absurd (omega (arith, h.long))

-- The loop on the nonce gives the mask back.
record_nonce-IsMask : (mask : List ℕ) (n : ℕ) → IsMask mask → IsMask (record_nonce mask n)
unfolding record_nonce
record_nonce-IsMask mask n h = record {
  long = length-xor_bytes mask _ (h.long ∙ sym (padded_length n)) ∙ h.long;
  bytes = xor_bytes-IsByte mask _ h.bytes (padded_bytes n);
}

record_nonce-back :
    (mask : List ℕ) (n : ℕ) → IsMask mask → record_nonce (record_nonce mask n) n ≡ mask
unfolding record_nonce
record_nonce-back mask n h =
    xor_bytes-back mask (replicate 4 0 ++ be 8 n) (h.long ∙ sym (padded_length n)) h.bytes
      (padded_bytes n)

-- Different records of one key have different nonces.
record_nonce-injective :
    (mask : List ℕ) (n m : ℕ)
    → IsMask mask
    → n < 256 ^ 8
    → m < 256 ^ 8
    → record_nonce mask n ≡ record_nonce mask m
    → n ≡ m
unfolding record_nonce
record_nonce-injective mask n m h hn hm e =
    let whole : (k : ℕ)
        → xor_bytes mask (xor_bytes mask (replicate 4 0 ++ be 8 k)) ≡ replicate 4 0 ++ be 8 k =
      λ k. xor_bytes-other mask _ (h.long ∙ sym (padded_length k)) h.bytes (padded_bytes k) in
    let same : replicate 4 0 ++ be 8 n ≡ replicate 4 0 ++ be 8 m =
      sym (whole n) ∙ ap (xor_bytes mask) e ∙ whole m in
    sym (from_be-be 8 n hn) ∙ ap (λ l. from_be 0 (drop 4 l)) same ∙ from_be-be 8 m hm

-- In TLS 1.3, and with ChaCha20-Poly1305: under a mask of 12 bytes, `Seal` and `Open` under the
-- eight bytes of a record's number ask the AEAD under the nonce of RFC 8446 for that record, and
-- leave the mask as it was. The record of another number below 2 ^ 64 has another nonce.
pub xor_seal_lem :
    (f : XorNonceAead) (n m : ℕ) (text additional : List ℕ)
    → IsMask f.nonce_mask
    → n < 256 ^ 8
    → m < 256 ^ 8
    → n ≢ m
    → (xor_seal f (be 8 n) text additional
        ≡ ok (f, f.aead.seal (record_nonce f.nonce_mask n) text additional))
      × (xor_open f (be 8 n) text additional
          ≡ ok (f, f.aead.open_sealed (record_nonce f.nonce_mask n) text additional))
      × (record_nonce f.nonce_mask n ≢ record_nonce f.nonce_mask m)
unfolding xor_seal xor_open
xor_seal_lem f n m text additional h hn hm differ =
    let first = xor_loop-record_nonce f.nonce_mask n h in
    let second : xor_loop 4 (be 8 n) (record_nonce f.nonce_mask n) ≡ ok f.nonce_mask =
      xor_loop-record_nonce (record_nonce f.nonce_mask n) n (record_nonce-IsMask f.nonce_mask n h)
      ∙ ap ok (record_nonce-back f.nonce_mask n h) in
    (
      rw (xor_seal, first, second) refl,
      rw (xor_open, first, second) refl,
      λ e. differ (record_nonce-injective f.nonce_mask n m h hn hm e),
    )

explicit-written :
    (fixed nonce : List ℕ)
    → length fixed ≡ 12
    → length nonce ≡ 8
    → copy_from 4 fixed nonce ≡ take 4 fixed ++ nonce
explicit-written fixed nonce h k =
    copy_from_lem 4 fixed nonce (omega (arith, h))
    ∙ ap (λ l. take 4 fixed ++ l)
        (copy_full (drop 4 fixed) nonce (omega (arith, h, k, length-drop 4 fixed)))

-- Before TLS 1.3, with AES-GCM: of two wrappers with the same fixed first four bytes, whatever nonce each has used
-- before, the second opens what the first seals, under the same explicit nonce of eight bytes; both ask the
-- AEAD under the fixed bytes followed by the explicit nonce. The AEAD opens what it sealed under a nonce of
-- 12 bytes.
pub prefix_open-prefix_seal :
    (f g : PrefixNonceAead) (nonce text additional : List ℕ)
    → length f.nonce ≡ 12
    → length g.nonce ≡ 12
    → take 4 g.nonce ≡ take 4 f.nonce
    → length nonce ≡ 8
    → ((iv : List ℕ)
        → length iv ≡ 12
        → g.aead.open_sealed iv (f.aead.seal iv text additional) additional ≡ some text)
    → (prefix_seal f nonce text additional
        ≡ (with_nonce f nonce, f.aead.seal (take 4 f.nonce ++ nonce) text additional))
      × (prefix_open g nonce (prefix_seal f nonce text additional).1 additional
          ≡ (with_nonce g nonce, some text))
unfolding prefix_seal prefix_open with_nonce
prefix_open-prefix_seal f g nonce text additional hf hg same hn opens =
    let here = explicit-written f.nonce nonce hf hn in
    let there : copy_from 4 g.nonce nonce ≡ take 4 f.nonce ++ nonce =
      explicit-written g.nonce nonce hg hn ∙ ap (λ l. l ++ nonce) same in
    let long : length (take 4 f.nonce ++ nonce) ≡ 12 =
      omega (arith, length-append (take 4 f.nonce) nonce, length-take 4 f.nonce, hf, hn) in
    (
      ap (λ iv. (with_nonce f nonce, f.aead.seal iv text additional)) here,
      ap (λ r. (with_nonce g nonce, r)) (rw (here, there) (opens (take 4 f.nonce ++ nonce) long)),
    )

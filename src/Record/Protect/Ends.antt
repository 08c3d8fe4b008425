-- ===== src/Record/Protect/Ends.antt =====
-- `encrypt` and `decrypt` end, whatever the half-connection and the record.
use disguise.Common.{
  ℕ, zero, suc, List, Option, none, some, refl, Ends, ends_ok, ends_err, ends_panic, ending,
}
use disguise.Common.Bytes.{slice, slice_from}
use disguise.Common.Crypto.{Crypto}
use disguise.Record.{Cipher, stream, aead, cbc, HalfConn, Mac, inc_loop, inc_seq}
use disguise.Record.Protect.{
  with_length, strip, read_random, explicit_nonce, encrypt_with, encrypt_by, encrypt, or_bad_mac,
  additional, decrypt_with, inner_type, check_mac, decrypt_by, decrypt,
}

slice-Ends : (lo hi : ℕ) (s spare : List ℕ) → Ends (slice lo hi s spare)
unfolding slice
slice-Ends lo hi s spare = search ending

slice_from-Ends : (lo : ℕ) (s : List ℕ) → Ends (slice_from lo s)
unfolding slice_from
slice_from-Ends lo s = search ending

with_length-Ends : (out : List ℕ) (n : ℕ) → Ends (with_length out n)
unfolding with_length
with_length-Ends out n = search ending

inc_loop-Ends : (k : ℕ) (seq : List ℕ) → Ends (inc_loop k seq)
unfolding inc_loop
inc_loop-Ends zero seq = ends_panic
inc_loop-Ends (suc k) seq = search (ending, inc_loop-Ends k)

strip-Ends : (k : ℕ) (text : List ℕ) (type : ℕ) → Ends (strip k text type)
unfolding strip
strip-Ends zero text type = ends_ok
strip-Ends (suc k) text type = search (ending, strip-Ends k)

ruleset helpers = (ending, slice-Ends, slice_from-Ends, with_length-Ends, inc_loop-Ends, strip-Ends)

module _ ⦃C : Crypto⦄ where
  inc_seq-Ends : (hc : HalfConn) → Ends (inc_seq hc)
  unfolding inc_seq
  inc_seq-Ends hc = search helpers

  explicit_nonce-Ends :
      (hc : HalfConn) (c : Cipher) (n : ℕ) (random : Option (ℕ → ℕ))
      → Ends (explicit_nonce hc c n random)
  unfolding explicit_nonce read_random
  explicit_nonce-Ends hc c n none = search helpers
  explicit_nonce-Ends hc c n (some source) = search helpers

  encrypt_with-Ends :
      (hc : HalfConn) (c : Cipher) (out nonce payload : List ℕ)
      → Ends (encrypt_with hc c out nonce payload)
  unfolding encrypt_with
  encrypt_with-Ends hc (stream key) out nonce payload = search helpers depth 12
  encrypt_with-Ends hc (aead key n overhead) out nonce payload = search helpers depth 12
  encrypt_with-Ends hc (cbc key block) out nonce payload = search helpers depth 12

  encrypt_by-Ends :
      (hc : HalfConn) (c : Option Cipher) (out payload : List ℕ) (random : Option (ℕ → ℕ))
      → Ends (encrypt_by hc c out payload random)
  unfolding encrypt_by
  encrypt_by-Ends hc none out payload random = ends_ok
  encrypt_by-Ends hc (some c) out payload random =
      search (helpers, explicit_nonce-Ends, encrypt_with-Ends, inc_seq-Ends)

  pub encrypt-Ends :
      (hc : HalfConn) (out payload : List ℕ) (random : Option (ℕ → ℕ))
      → Ends (encrypt hc out payload random)
  unfolding encrypt
  encrypt-Ends hc out payload random = encrypt_by-Ends hc hc.cipher out payload random

  or_bad_mac-Ends : (o : Option (List ℕ)) → Ends (or_bad_mac o)
  unfolding or_bad_mac
  or_bad_mac-Ends none = ends_err refl
  or_bad_mac-Ends (some text) = ends_ok

  additional-Ends : (hc : HalfConn) (sealed : List ℕ) (n : ℕ) → Ends (additional hc sealed n)
  unfolding additional
  additional-Ends hc sealed n = search helpers

  decrypt_with-Ends :
      (hc : HalfConn) (c : Cipher) (n : ℕ) (sealed payload : List ℕ)
      → Ends (decrypt_with hc c n sealed payload)
  unfolding decrypt_with
  decrypt_with-Ends hc (stream key) n sealed payload = ends_ok
  decrypt_with-Ends hc (aead key e overhead) n sealed payload =
      search (helpers, additional-Ends, or_bad_mac-Ends)
  decrypt_with-Ends hc (cbc key block) n sealed payload = search helpers

  inner_type-Ends :
      (hc : HalfConn) (plaintext : List ℕ) (type : ℕ) → Ends (inner_type hc plaintext type)
  unfolding inner_type
  inner_type-Ends hc plaintext type = search helpers

  check_mac-Ends :
      (hc : HalfConn) (mac : Option Mac) (sealed payload plaintext : List ℕ) (padding_len good : ℕ)
      → Ends (check_mac hc mac sealed payload plaintext padding_len good)
  unfolding check_mac
  check_mac-Ends hc none sealed payload plaintext padding_len good = ends_ok
  check_mac-Ends hc (some m) sealed payload plaintext padding_len good = search helpers

  decrypt_by-Ends :
      (hc : HalfConn) (c : Option Cipher) (type : ℕ) (sealed payload : List ℕ)
      → Ends (decrypt_by hc c type sealed payload)
  unfolding decrypt_by
  decrypt_by-Ends hc none type sealed payload = search (helpers, check_mac-Ends, inc_seq-Ends)
  decrypt_by-Ends hc (some c) type sealed payload =
      search (helpers, decrypt_with-Ends, inner_type-Ends, check_mac-Ends, inc_seq-Ends)

  pub decrypt-Ends : (hc : HalfConn) (sealed : List ℕ) → Ends (decrypt hc sealed)
  unfolding decrypt
  decrypt-Ends hc sealed = search (helpers, decrypt_by-Ends)

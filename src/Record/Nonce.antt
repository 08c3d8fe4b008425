-- ===== src/Record/Nonce.antt =====
-- cipher_suites.go: the wrappers that make the nonces of an AEAD. The AEADs themselves, GCM and
-- ChaCha20-Poly1305 of Go's crypto packages, are the interface `Aead`.
pub mod Xored
pub mod Wrapped
use disguise.Common.{
  ℕ, zero, suc, ◌+◌, List, [], ◌∷◌, Option, none, some, Outcome, ok, panic, ◌>>=◌, or_panic, length,
  get_elem?, set, replicate, copy, copy_from, ◌==◌, if◌then◌else◌,
}
use Prim.Native.Nat.{bit_xor}

-- `cipher.AEAD`: the nonce, the text and the additional data.
pub record Aead : Type 0 where
  pub seal : List ℕ → List ℕ → List ℕ → List ℕ
  pub open_sealed : List ℕ → List ℕ → List ℕ → Option (List ℕ)

pub record PrefixNonceAead : Type 0 where
  pub nonce : List ℕ
  pub aead : Aead

pub record XorNonceAead : Type 0 where
  pub nonce_mask : List ℕ
  pub aead : Aead

-- `copy(f.nonce[4:], nonce)`.
unfoldable pub with_nonce : PrefixNonceAead → List ℕ → PrefixNonceAead
with_nonce f nonce = record f { nonce = copy_from 4 f.nonce nonce }

-- `Seal` and `Open` give the wrapper after the call.
unfoldable pub prefix_seal : PrefixNonceAead → List ℕ → List ℕ → List ℕ → PrefixNonceAead × List ℕ
prefix_seal f nonce plaintext additional =
    let f' = with_nonce f nonce in (f', f'.aead.seal f'.nonce plaintext additional)

unfoldable pub prefix_open :
    PrefixNonceAead → List ℕ → List ℕ → List ℕ → PrefixNonceAead × Option (List ℕ)
prefix_open f nonce ciphertext additional =
    let f' = with_nonce f nonce in (f', f'.aead.open_sealed f'.nonce ciphertext additional)

-- `for i, b := range nonce { f.nonceMask[4+i] ^= b }`, from the index `j = 4+i` on.
unfoldable pub xor_loop : ℕ → List ℕ → List ℕ → Outcome (List ℕ)
xor_loop j [] mask = ok mask
xor_loop j (b ∷ nonce) mask = do
  x ← or_panic (get_elem? mask j)
  xor_loop (suc j) nonce (set mask j (bit_xor x b))

unfoldable pub xor_seal : XorNonceAead → List ℕ → List ℕ → List ℕ → Outcome (XorNonceAead × List ℕ)
xor_seal f nonce plaintext additional = do
  mask ← xor_loop 4 nonce f.nonce_mask
  let result = f.aead.seal mask plaintext additional
  mask' ← xor_loop 4 nonce mask
  ok (record f { nonce_mask = mask' }, result)

unfoldable pub xor_open :
    XorNonceAead → List ℕ → List ℕ → List ℕ → Outcome (XorNonceAead × Option (List ℕ))
xor_open f nonce ciphertext additional = do
  mask ← xor_loop 4 nonce f.nonce_mask
  let result = f.aead.open_sealed mask ciphertext additional
  mask' ← xor_loop 4 nonce mask
  ok (record f { nonce_mask = mask' }, result)

-- `aeadAESGCM`; `new_gcm` is none where `aes.NewCipher` or `cipher.NewGCM` refuses the key.
unfoldable pub aead_aes_gcm : (List ℕ → Option Aead) → List ℕ → List ℕ → Outcome PrefixNonceAead
aead_aes_gcm new_gcm key nonce_prefix =
    if length nonce_prefix == 4
    then (do
      aead ← or_panic (new_gcm key)
      ok (record { nonce = copy (replicate 12 0) nonce_prefix; aead = aead }))
    else panic

-- `aeadAESGCMTLS13` and `aeadChaCha20Poly1305`, given what makes their AEAD.
unfoldable pub aead_xored : (List ℕ → Option Aead) → List ℕ → List ℕ → Outcome XorNonceAead
aead_xored new_aead key nonce_mask =
    if length nonce_mask == 12
    then (do
      aead ← or_panic (new_aead key)
      ok (record { nonce_mask = copy (replicate 12 0) nonce_mask; aead = aead }))
    else panic

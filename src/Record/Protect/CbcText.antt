-- ===== src/Record/Protect/CbcText.antt =====
-- What `encrypt` gives a block cipher in CBC mode: the payload, its MAC and the padding.
use disguise.Common.{
  ℕ, ◌+◌, ◌-◌, ◌%◌, ◌<◌, ◌≤◌, ◌≡◌, ◌⊎◌, inl, inr, refl, sym, List, [], ◌∷◌, ◌++◌, true, All, length,
  length-append, take, drop, replicate, length-replicate, take_append_left, drop_append_left,
  ==_refl, arith,
}
use disguise.Common.Bytes.{IsByte, be}
use disguise.Common.Crypto.{Crypto}
use disguise.Record.{Mac, round_up}
use disguise.Record.Padding.{extract_padding}
use disguise.Record.Padding.{extract_padding}
use disguise.Record.Padding.Written.{append-IsByte, extract_padding-replicate}
use disguise.Record.Protect.{same_bytes}
use mathlib.Core.List.{append_assoc}

pub same_bytes_refl : (xs : List ℕ) → same_bytes xs xs ≡ true
unfolding same_bytes
same_bytes_refl [] = refl
same_bytes_refl (x ∷ xs) = rw (==_refl x) (same_bytes_refl xs)

abbrev pub padding_for : ℕ → ℕ → ℕ
padding_for block n = block - n % block

-- Of the block sizes of AES and 3DES.
pub fill :
    (block n size : ℕ)
    → (block ≡ 8) ⊎ (block ≡ 16)
    → size ≤ n
    → (1 ≤ padding_for block n)
      × (padding_for block n ≤ 16)
      × ((block + (n + padding_for block n)) % block ≡ 0)
      × ((n + padding_for block n) % block ≡ 0)
      × (round_up (size + 1) block ≤ n + padding_for block n)
unfolding round_up
fill block n size (inl e) h = rw e (omega arith, omega arith, omega arith, omega arith, omega arith)
fill block n size (inr e) h = rw e (omega arith, omega arith, omega arith, omega arith, omega arith)

module _ ⦃C : Crypto⦄ where
  -- What is encrypted: the payload, its MAC and the padding.
  abbrev pub mac_of : Mac → ℕ → ℕ → ℕ → ℕ → List ℕ → List ℕ
  mac_of m n t v1 v2 payload =
      m.digest (be 8 n ++ ((t ∷ v1 ∷ v2 ∷ be 2 (length payload)) ++ payload))

  abbrev pub padding_of : ℕ → ℕ → List ℕ
  padding_of block n = replicate (padding_for block n) ((padding_for block n - 1) % 256)

  abbrev pub plain : Mac → ℕ → ℕ → ℕ → ℕ → ℕ → List ℕ → List ℕ
  plain m block n t v1 v2 payload =
      let sum = mac_of m n t v1 v2 payload in
      payload ++ (sum ++ padding_of block (length payload + length sum))

  -- The parts of what is encrypted, and the padding that is found in it.
  pub plain_lem :
      (m : Mac) (block n t v1 v2 : ℕ) (payload : List ℕ)
      → (block ≡ 8) ⊎ (block ≡ 16)
      → All IsByte payload
      → length payload < 65536
      → m.size < 65536
      → ((text : List ℕ) → length (m.digest text) ≡ m.size)
      → ((text : List ℕ) → All IsByte (m.digest text))
      → let text = plain m block n t v1 v2 payload in
        let p = padding_for block (length payload + m.size) in
        (length text ≡ length payload + m.size + p)
        × (extract_padding text ≡ (p, 255))
        × (take (length payload) text ≡ payload)
        × (take m.size (drop (length payload) text) ≡ mac_of m n t v1 v2 payload)
  plain_lem m block n t v1 v2 payload sizes bytes short small long mac_bytes =
      let sum = mac_of m n t v1 v2 payload in
      let size : length sum ≡ m.size =
        long (be 8 n ++ ((t ∷ v1 ∷ v2 ∷ be 2 (length payload)) ++ payload)) in
      let p = padding_for block (length payload + m.size) in
      let (some_left, few, whole, blocks, enough) =
        fill block (length payload + m.size) m.size sizes (omega arith) in
      let byte : (p - 1) % 256 ≡ p - 1 = omega (arith, few) in
      let again : p - 1 + 1 ≡ p = omega (arith, some_left) in
      let tail : length (replicate p (p - 1)) ≡ p = length-replicate p (p - 1) in
      rw (size, byte)
        (
          omega (
            arith,
            length-append payload (sum ++ replicate p (p - 1)),
            length-append sum (replicate p (p - 1)),
            tail,
            size,
          ),
          rw (again, append_assoc payload sum (replicate p (p - 1))) at
              (extract_padding-replicate (payload ++ sum) (p - 1)
                (append-IsByte payload sum bytes (mac_bytes _)) (omega (arith, few))
                (omega (arith, few, length-append payload sum, size))),
          take_append_left (length payload) payload (sum ++ replicate p (p - 1)) refl,
          rw (drop_append_left (length payload) payload (sum ++ replicate p (p - 1)) refl)
              (take_append_left m.size sum (replicate p (p - 1)) (sym size)),
        )

-- ===== src/Ticket.antt =====
-- ticket.go and common.go: session tickets, and the keys that they are encrypted with.
pub mod Rotation
pub mod Sealed
pub mod Opened
pub mod Resumption
mod Tests
use disguise.Common.{
  ℕ, zero, suc, ◌+◌, ◌-◌, ◌*◌, Bool, true, false, not, ◌&&◌, ◌||◌, Option, none, some, List, [],
  ◌∷◌, ◌++◌, Outcome, ok, err, panic, tls_error, keys_unavailable, random_failed, ticket_cipher,
  ◌>>=◌, length, take, drop, replicate, copy, copy_from, ltb, leb, ◌==◌, if◌then◌else◌,
}
use disguise.Common.Texts.{same_list}

-- `ticketKey`; the time of its creation is in nanoseconds.
pub record TicketKey : Type 0 where
  pub key_name : List ℕ
  pub aes_key : List ℕ
  pub hmac_key : List ℕ
  pub created : ℕ

-- What the tickets use of Go's crypto packages: SHA-512, AES in counter mode (none where `aes.NewCipher`
-- refuses the key), and HMAC with SHA-256.
pub record TicketCrypto : Type 0 where
  pub sum512 : List ℕ → List ℕ
  pub aes_ctr : List ℕ → List ℕ → List ℕ → Option (List ℕ)
  pub hmac_sha256 : List ℕ → List ℕ → List ℕ

-- The loop that looks for the key, from the index `i` on.
unfoldable pub find_key : List ℕ → List TicketKey → ℕ → Option (TicketKey × ℕ)
find_key name [] i = none
find_key name (key ∷ keys) i =
    let rest = find_key name keys (suc i) in
    if same_list name key.key_name then some (key, i) else rest

module _ (C : TicketCrypto) where
  -- `ticketKeyFromBytes`, at the time `now`.
  unfoldable pub ticket_key_from_bytes : ℕ → List ℕ → TicketKey
  ticket_key_from_bytes now b =
      let hashed = C.sum512 b in
      record {
        key_name = take 16 hashed;
        aes_key = take 16 (drop 16 hashed);
        hmac_key = take 16 (drop 32 hashed);
        created = now;
      }

  -- The buffer with the MAC of what stands before it.
  unfoldable pub with_mac : TicketKey → List ℕ → List ℕ
  with_mac key encrypted =
      copy_from (length encrypted - 32) encrypted
        (C.hmac_sha256 key.hmac_key (take (length encrypted - 32) encrypted))

  -- `encryptTicket` with the first key; the initialization vector is none where the random source fails.
  unfoldable pub encrypt_ticket_with : TicketKey → Option (List ℕ) → List ℕ → Outcome (List ℕ)
  encrypt_ticket_with key none state = err random_failed
  encrypt_ticket_with key (some iv) state =
      let encrypted = copy_from 16 (replicate (16 + 16 + length state + 32) 0) iv in
      let named = copy encrypted key.key_name in
      elim (C.aes_ctr key.aes_key iv state) [
        | none ↦ err (tls_error ticket_cipher)
        | some text ↦ ok (with_mac key (copy_from 32 named text))
      ]

  unfoldable pub encrypt_ticket : List TicketKey → Option (List ℕ) → List ℕ → Outcome (List ℕ)
  encrypt_ticket [] iv state = err (tls_error keys_unavailable)
  encrypt_ticket (key ∷ keys) iv state = encrypt_ticket_with key iv state

  -- `decryptTicket` with the key that was found.
  unfoldable pub decrypt_ticket_with : List ℕ → TicketKey × ℕ → Option (List ℕ) × Bool
  decrypt_ticket_with encrypted (key, i) =
      let n = length encrypted - 32 in
      if same_list (drop n encrypted) (C.hmac_sha256 key.hmac_key (take n encrypted))
      then (elim (C.aes_ctr key.aes_key (take 16 (drop 16 encrypted))
          (drop 32 (take n encrypted))) [ none ↦ (none, false) | some text ↦ (some text, ltb 0 i) ])
      else (none, false)

  -- The plaintext, none for nil, and `usedOldKey`.
  unfoldable pub decrypt_ticket : List TicketKey → List ℕ → Option (List ℕ) × Bool
  decrypt_ticket keys encrypted =
      if ltb (length encrypted) (16 + 16 + 32)
      then (none, false)
      else elim (find_key (take 16 encrypted) keys 0) [
        | none ↦ (none, false)
        | some found ↦ decrypt_ticket_with encrypted found
      ]

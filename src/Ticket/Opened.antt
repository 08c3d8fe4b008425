-- ===== src/Ticket/Opened.antt =====
-- What decryptTicket makes of a ticket: of one that encryptTicket wrote, and of any.
use disguise.Common.{
  ℕ, suc, ◌+◌, ◌-◌, ◌≡◌, refl, sym, ap, ◌∙◌, inl, inr, Bool-cases, Option-cases, Bool, false, All,
  Option, none, some, List, [], ◌∷◌, ◌++◌, ok, length, take, drop, ltb, le→ltb, length-append,
  take_append_left, drop_append_left, arith,
}
use disguise.Common.Texts.{same_list, same_list_refl, same_list-eq}
use disguise.Ticket.{
  TicketKey, TicketCrypto, encrypt_ticket, find_key, decrypt_ticket_with, decrypt_ticket,
}
use disguise.Ticket.Sealed.{sealed_text, IsSound, encrypt_with_lem}
use mathlib.Core.List.{append_assoc}
use native.Mathlib.Nat.{zero-add}

-- The first key of a name, at its place.
find_key_lem :
    (name : List ℕ) (before rest : List TicketKey) (key : TicketKey) (i : ℕ)
    → name ≡ key.key_name
    → All (λ k. same_list name k.key_name ≡ false) before
    → find_key name (before ++ (key ∷ rest)) i ≡ some (key, length before + i)
unfolding find_key
find_key_lem name [] rest key i same other =
    rw (ap (λ n. same_list name n) (sym same) ∙ same_list_refl name, zero-add) refl
find_key_lem name (k ∷ before) rest key i same other =
    rw (other.0) (
      find_key_lem name before rest key (suc i) same other.1
      ∙ ap (λ n. some (key, n)) (omega arith))

-- A ticket is decrypted with the first key of its name.
decrypt_sealed :
    (C : TicketCrypto) (key : TicketKey) (before rest : List TicketKey) (iv state text : List ℕ)
    → IsSound C key
    → length iv ≡ 16
    → C.aes_ctr key.aes_key iv text ≡ some state
    → All (λ k. same_list key.key_name k.key_name ≡ false) before
    → decrypt_ticket C
        (before ++ (key ∷ rest))
        (sealed_text key iv text ++ C.hmac_sha256 key.hmac_key (sealed_text key iv text))
      ≡ (some state, ltb 0 (length before))
unfolding decrypt_ticket decrypt_ticket_with sealed_text
decrypt_sealed C key before rest iv state text h i e other =
    let name = key.key_name in
    let body = sealed_text key iv text in
    let mac = C.hmac_sha256 key.hmac_key body in
    let l1 : length body ≡ 32 + length text =
      length-append name (iv ++ text) ∙ omega (arith, h.named, i, length-append iv text) in
    let l2 : length (body ++ mac) - 32 ≡ length body =
      omega (arith, h.hmac_length body, length-append body mac) in
    let long : ltb (length (body ++ mac)) 64 ≡ false =
      le→ltb (length (body ++ mac)) 64
        (omega (arith, l1, h.hmac_length body, length-append body mac)) in
    let found : find_key (take 16 (body ++ mac)) (before ++ (key ∷ rest)) 0
        ≡ some (key, length before) =
      ap (λ n. find_key n (before ++ (key ∷ rest)) 0)
        (ap (take 16) (append_assoc name (iv ++ text) mac)
          ∙ take_append_left 16 name ((iv ++ text) ++ mac) (sym h.named))
      ∙ find_key_lem name before rest key 0 refl other
      ∙ ap (λ n. some (key, n)) (omega arith) in
    let its_iv : take 16 (drop 16 (body ++ mac)) ≡ iv =
      ap (λ l. take 16 (drop 16 l)) (append_assoc name (iv ++ text) mac)
      ∙ ap (take 16)
          (drop_append_left 16 name ((iv ++ text) ++ mac) (sym h.named) ∙ append_assoc iv text mac)
      ∙ take_append_left 16 iv (text ++ mac) (sym i) in
    let its_text : drop 32 body ≡ text =
      ap (drop 32) (sym (append_assoc name iv text))
      ∙ drop_append_left 32 (name ++ iv) text (omega (arith, h.named, i, length-append name iv)) in
    rw
      (
        decrypt_ticket,
        long,
        found,
        l2,
        drop_append_left (length body) body mac refl,
        take_append_left (length body) body mac refl,
        same_list_refl mac,
        its_iv,
        its_text,
        e,
      )
      refl

-- What encryptTicket writes with its first key, decryptTicket of any keys in which that key is the
-- first of its name reads back, and says that the key is old exactly where it does not stand
-- first. Of AES and HMAC it is assumed that the one undoes itself and the other has 32 bytes.
pub decrypt_ticket-encrypt_ticket :
    (C : TicketCrypto) (key : TicketKey) (others before rest : List TicketKey) (iv state : List ℕ)
    → IsSound C key
    → length iv ≡ 16
    → All (λ k. same_list key.key_name k.key_name ≡ false) before
    → (t : List ℕ) × (encrypt_ticket C (key ∷ others) (some iv) state ≡ ok t)
      × (decrypt_ticket C (before ++ (key ∷ rest)) t ≡ (some state, ltb 0 (length before)))
unfolding encrypt_ticket
decrypt_ticket-encrypt_ticket C key others before rest iv state h i other =
    let (text, there, back, same) = h.ctr_undone iv state i in
    (
      _,
      encrypt_with_lem C key iv state text h i there same,
      decrypt_sealed C key before rest iv state text h i back other,
    )

-- Where decryptTicket gives a plaintext, one of the keys has the name that the ticket starts with,
-- the ticket ends with that key's MAC of all that stands before, and the plaintext is what AES makes,
-- with that key and the 16 bytes after the name, of what stands between them and the MAC.
pub decrypt_ticket_lem :
    (C : TicketCrypto) (keys : List TicketKey) (t state : List ℕ) (old : Bool)
    → decrypt_ticket C keys t ≡ (some state, old)
    → (key : TicketKey) × (i : ℕ) × (find_key (take 16 t) keys 0 ≡ some (key, i))
      × (drop (length t - 32) t ≡ C.hmac_sha256 key.hmac_key (take (length t - 32) t))
      × (C.aes_ctr key.aes_key (take 16 (drop 16 t)) (drop 32 (take (length t - 32) t))
          ≡ some state)
      × (old ≡ ltb 0 i)
unfolding decrypt_ticket decrypt_ticket_with
decrypt_ticket_lem C keys t state old h = elim (Bool-cases (ltb (length t) 64)) [
  | inl short ↦ absurd (nothing _ (rw (decrypt_ticket, short) at h))
  | inr long ↦ elim (Option-cases (find_key (take 16 t) keys 0)) [
    | inl gone ↦ absurd (nothing _ (rw (decrypt_ticket, long, gone) at h))
    | inr ((key, i), found) ↦
        let (same, read, index) = with_key key i (rw (decrypt_ticket, long, found) at h) in
        (key, i, found, same, read, index)
  ]
]
  where
    nothing : (b : Bool) → ◌≡◌ {A = Option (List ℕ) × Bool} (none, b) (some state, old) → ⊥
    nothing b e = cc

    with_key :
        (key : TicketKey) (i : ℕ)
        → decrypt_ticket_with C t (key, i) ≡ (some state, old)
        → (drop (length t - 32) t ≡ C.hmac_sha256 key.hmac_key (take (length t - 32) t))
          × (C.aes_ctr key.aes_key (take 16 (drop 16 t)) (drop 32 (take (length t - 32) t))
              ≡ some state)
          × (old ≡ ltb 0 i)
    with_key key i h =
        let n = length t - 32 in
        let mac = C.hmac_sha256 key.hmac_key (take n t) in
        elim (Bool-cases (same_list (drop n t) mac)) [
          | inl same ↦
              elim (Option-cases
                (C.aes_ctr key.aes_key (take 16 (drop 16 t)) (drop 32 (take n t)))) [
                  | inl refused ↦ absurd (nothing _ (rw (decrypt_ticket_with, same, refused) at h))
                  | inr (text, read) ↦
                      let (its, index) = parts text (rw (decrypt_ticket_with, same, read) at h) in
                      (same_list-eq (drop n t) mac same, read ∙ its, index)
                ]
          | inr differ ↦ absurd (nothing _ (rw (decrypt_ticket_with, differ) at h))
        ]
      where
        parts :
            (text : List ℕ)
            → ◌≡◌ {A = Option (List ℕ) × Bool} (some text, ltb 0 i) (some state, old)
            → (some text ≡ some state) × (old ≡ ltb 0 i)
        parts text e = (cc, cc)

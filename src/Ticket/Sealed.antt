-- ===== src/Ticket/Sealed.antt =====
-- What encryptTicket writes, decryptTicket reads.
use disguise.Common.{
  ℕ, ◌+◌, ◌-◌, ◌≤◌, ◌≡◌, refl, sym, ap, ◌∙◌, some, List, [], ◌∷◌, ◌++◌, ok, length, take, drop,
  replicate, copy, copy_from, length-take, length-drop, copy_front, length-append, length-replicate,
  copy_from_lem, drop_all, take_append_left, drop_append_left, arith,
}
use disguise.Ticket.{TicketKey, TicketCrypto, with_mac, encrypt_ticket_with}
use mathlib.Core.List.{append_assoc, append-nil}

-- A ticket: the name of the key, the initialization vector and the text, and the MAC of these.
unfoldable pub sealed_text : TicketKey → List ℕ → List ℕ → List ℕ
sealed_text key iv text = key.key_name ++ (iv ++ text)

-- A write in the middle, and one that reaches the end.
write_at :
    (before rest new : List ℕ)
    → length new ≤ length rest
    → copy_from (length before) (before ++ rest) new ≡ before ++ (new ++ drop (length new) rest)
write_at [] rest new h = copy_front rest new h
write_at (x ∷ before) rest new h = ap (◌∷◌ x) (write_at before rest new h)

-- The buffer of a ticket after the three writes, and 32 bytes that are left.
filled :
    (buffer name iv text : List ℕ)
    → length name ≡ 16
    → length iv ≡ 16
    → length buffer ≡ 64 + length text
    → (spare : List ℕ) × (copy_from 32 (copy (copy_from 16 buffer iv) name) text
        ≡ (name ++ (iv ++ text)) ++ spare)
      × (length spare ≡ 32)
filled buffer name iv text n i h =
    let b1 = take 16 buffer in
    let r1 = drop 16 buffer in
    let r2 = drop 16 r1 in
    let r3 = drop (length text) r2 in
    let l1 : length b1 ≡ 16 = length-take 16 buffer ∙ omega (arith, h) in
    let l2 : length r1 ≡ 48 + length text = length-drop 16 buffer ∙ omega (arith, h) in
    let l3 : length r2 ≡ 32 + length text = length-drop 16 r1 ∙ omega (arith, l2) in
    let l4 : length r3 ≡ 32 = length-drop (length text) r2 ∙ omega (arith, l3) in
    let with_iv : copy_from 16 buffer iv ≡ b1 ++ (iv ++ r2) =
      copy_from_lem 16 buffer iv (omega (arith, h))
      ∙ ap (λ l. b1 ++ l) (copy_front r1 iv (omega (arith, i, l2)) ∙ ap (λ k. iv ++ drop k r1) i) in
    let with_name : copy (b1 ++ (iv ++ r2)) name ≡ name ++ (iv ++ r2) =
      copy_front (b1 ++ (iv ++ r2)) name (omega (arith, n, l1, length-append b1 (iv ++ r2)))
      ∙ ap (λ l. name ++ l) (drop_append_left (length name) b1 (iv ++ r2) (omega (arith, n, l1))) in
    let front : length (name ++ iv) ≡ 32 = omega (arith, n, i, length-append name iv) in
    let with_text : copy_from 32 (name ++ (iv ++ r2)) text ≡ (name ++ (iv ++ text)) ++ r3 =
      ap (λ l. copy_from 32 l text) (sym (append_assoc name iv r2))
      ∙ ap (λ k. copy_from k ((name ++ iv) ++ r2) text) (sym front)
      ∙ write_at (name ++ iv) r2 text (omega (arith, l3))
      ∙ append_assoc name iv (text ++ r3)
      ∙ ap (λ l. name ++ l) (sym (append_assoc iv text r3))
      ∙ sym (append_assoc name (iv ++ text) r3) in
    (
      r3,
      ap (λ l. copy_from 32 (copy l name) text) with_iv
          ∙ ap (λ l. copy_from 32 l text) with_name
          ∙ with_text,
      l4,
    )

-- What the code relies on of AES and HMAC, for the keys of a ticket: HMAC with SHA-256 has 32 bytes, and
-- AES takes the key, keeps lengths and undoes itself.
pub record IsSound (C : TicketCrypto) (key : TicketKey) : Type 0 where
  pub named : length key.key_name ≡ 16
  pub hmac_length : (t : List ℕ) → length (C.hmac_sha256 key.hmac_key t) ≡ 32
  pub ctr_undone :
      (iv t : List ℕ)
      → length iv ≡ 16
      → (c : List ℕ) × (C.aes_ctr key.aes_key iv t ≡ some c)
        × (C.aes_ctr key.aes_key iv c ≡ some t)
        × (length c ≡ length t)

-- The MAC fills the end of the buffer.
with_mac_lem :
    (C : TicketCrypto) (key : TicketKey) (text spare : List ℕ)
    → length spare ≡ 32
    → length (C.hmac_sha256 key.hmac_key text) ≡ 32
    → with_mac C key (text ++ spare) ≡ text ++ C.hmac_sha256 key.hmac_key text
unfolding with_mac
with_mac_lem C key text spare s m =
    let whole : length (text ++ spare) - 32 ≡ length text =
      omega (arith, s, length-append text spare) in
    rw (with_mac, whole, take_append_left (length text) text spare refl)
      (write_at text spare (C.hmac_sha256 key.hmac_key text) (omega (arith, s, m))
        ∙ ap (λ l. text ++ (C.hmac_sha256 key.hmac_key text ++ l))
            (drop_all (length (C.hmac_sha256 key.hmac_key text)) spare (omega (arith, s, m)))
        ∙ ap (λ l. text ++ l) (append-nil (C.hmac_sha256 key.hmac_key text)))

pub encrypt_with_lem :
    (C : TicketCrypto) (key : TicketKey) (iv state text : List ℕ)
    → IsSound C key
    → length iv ≡ 16
    → C.aes_ctr key.aes_key iv state ≡ some text
    → length text ≡ length state
    → encrypt_ticket_with C key (some iv) state
      ≡ ok (sealed_text key iv text ++ C.hmac_sha256 key.hmac_key (sealed_text key iv text))
unfolding encrypt_ticket_with sealed_text
encrypt_with_lem C key iv state text h i e l =
    let n = 16 + 16 + length state + 32 in
    let (spare, made, left) =
      filled (replicate n 0) key.key_name iv text h.named i
        (length-replicate n 0 ∙ omega (arith, l)) in
    rw (encrypt_ticket_with, e, made)
      (ap ok (with_mac_lem C key (sealed_text key iv text) spare left (h.hmac_length _)))

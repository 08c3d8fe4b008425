-- ===== src/Messages/Roundtrip.antt =====
-- Encoding a handshake message and reading it back.
use disguise.Common.{
  leb, ℕ, zero, suc, ◌+◌, ◌-◌, ◌%◌, ◌<◌, ◌≤◌, ◌≡◌, ◌≢◌, refl, ap, sym, ◌∙◌, List, [], ◌∷◌, ◌++◌,
  true, false, ltb, ◌==◌, not-==, All, Option, none, some, length, length-append, take, drop,
  take_append_left, drop_append_left, drop-drop, arith,
}
use disguise.Common.Bytes.{be, length-be}
use disguise.Messages.{
  Message, hello_request, server_hello_done, new_session_ticket, certificate, server_key_exchange,
  client_key_exchange, certificate_request, Handshake, certificate_bytes, certificate_octets,
  encoding, marshal, u24_at, count_certificates, take_certificates, unmarshal_certificate,
  unmarshal_ticket, unmarshal_server_key_exchange, unmarshal_client_key_exchange, unmarshal_empty,
  unmarshal,
}
use disguise.Conn.Output.{version_tls12}
use disguise.Messages.Request.{IsRequest, unmarshal_request-encoding}
use disguise.Record.{version_tls13}
use mathlib.Core.Option as Option

-- The messages whose lengths fit their bytes, and whose certificates are not empty.
abbrev pub IsEncodable : ℕ → Message → Type 0
IsEncodable vers hello_request = Unit {0}
IsEncodable vers server_hello_done = Unit {0}
IsEncodable vers (new_session_ticket ticket) = length ticket < 65536
IsEncodable vers (certificate certificates) =
    All (λ c. 1 ≤ length c) certificates × (3 + certificate_octets certificates < 16777216)
IsEncodable vers (server_key_exchange key) = length key < 16777216
IsEncodable vers (client_key_exchange ciphertext) = length ciphertext < 16777216
IsEncodable vers (certificate_request has types algorithms authorities) =
    (has ≡ leb version_tls12 vers) × IsRequest has types algorithms authorities

pub length-certificate_bytes :
    (cs : List (List ℕ)) → length (certificate_bytes cs) ≡ certificate_octets cs
unfolding certificate_bytes certificate_octets be
length-certificate_bytes [] = refl
length-certificate_bytes (c ∷ cs) =
    omega (arith, length-append c (certificate_bytes cs), length-certificate_bytes cs)

-- A round of the loop that counts.
count_certificates-step :
    (fuel left : ℕ) (bytes : List ℕ) (n : ℕ)
    → u24_at 0 bytes ≡ n
    → 4 ≤ length bytes
    → length bytes < 4294967296
    → 3 + n ≤ length bytes
    → 3 + n ≤ left
    → left < 4294967296
    → count_certificates (suc fuel) left bytes
      ≡ Option.map suc (count_certificates fuel (left - (3 + n)) (drop (3 + n) bytes))
unfolding count_certificates
count_certificates-step fuel left bytes n read long fits room some_left small =
    let e1 : (left == 0) ≡ false = ground arith in
    let e2 : ltb (length bytes) 4 ≡ false = ground arith in
    let e3 : ltb (length bytes % 4294967296) (3 + n) ≡ false = ground arith in
    let e4 : (left + 4294967296 - (3 + n)) % 4294967296 ≡ left - (3 + n) = omega arith in
    rw (read, e1, e2, e3, e4) refl

u24_at-be : (n : ℕ) (rest : List ℕ) → n < 16777216 → u24_at 0 (be 3 n ++ rest) ≡ n
unfolding be
u24_at-be n rest small = omega arith

-- The first certificate, and what follows it.
first_certificate :
    (c rest : List ℕ)
    → (take (length c) (drop 3 (be 3 (length c) ++ (c ++ rest))) ≡ c)
      × (drop (3 + length c) (be 3 (length c) ++ (c ++ rest)) ≡ rest)
unfolding be
first_certificate c rest = (
  take_append_left (length c) c rest refl,
  sym (drop-drop 3 (length c) (be 3 (length c) ++ (c ++ rest)))
      ∙ drop_append_left (length c) c rest refl,
)

no_certificates : (fuel : ℕ) → count_certificates (suc fuel) 0 [] ≡ some 0
unfolding count_certificates
no_certificates fuel = refl

count_certificates-certificate_bytes :
    (fuel : ℕ) (cs : List (List ℕ))
    → All (λ c. 1 ≤ length c) cs
    → certificate_octets cs < 16777216
    → certificate_octets cs ≤ fuel
    → count_certificates (suc fuel) (certificate_octets cs) (certificate_bytes cs)
      ≡ some (length cs)
unfolding certificate_bytes certificate_octets
count_certificates-certificate_bytes fuel [] filled fits enough = no_certificates fuel
count_certificates-certificate_bytes zero (c ∷ cs) filled fits enough = absurd (omega arith)
count_certificates-certificate_bytes (suc fuel) (c ∷ cs) filled fits enough =
    let bytes = be 3 (length c) ++ (c ++ certificate_bytes cs) in
    let long : length bytes ≡ 3 + length c + certificate_octets cs = omega (
      arith,
      length-append (be 3 (length c)) (c ++ certificate_bytes cs),
      length-be 3 (length c),
      length-append c (certificate_bytes cs),
      length-certificate_bytes cs,
    ) in
    let left : 3 + length c + certificate_octets cs - (3 + length c) ≡ certificate_octets cs =
      omega arith in
    let first = filled.0 in
    count_certificates-step (suc fuel) (3 + length c + certificate_octets cs) bytes (length c)
      (u24_at-be (length c) (c ++ certificate_bytes cs) (omega arith)) (omega (arith, long, first))
      (omega (arith, long)) (omega (arith, long)) (omega arith) (omega arith)
    ∙ rw (left, (first_certificate c (certificate_bytes cs)).1)
        (ap (Option.map suc)
          (count_certificates-certificate_bytes fuel cs filled.1 (omega arith) (omega arith)))

take_certificates-certificate_bytes :
    (cs : List (List ℕ))
    → certificate_octets cs < 16777216
    → take_certificates (length cs) (certificate_bytes cs) ≡ cs
unfolding take_certificates certificate_bytes certificate_octets
take_certificates-certificate_bytes [] fits = refl
take_certificates-certificate_bytes (c ∷ cs) fits =
    let (here, later) = first_certificate c (certificate_bytes cs) in
    rw (u24_at-be (length c) (c ++ certificate_bytes cs) (omega arith), here, later)
      (ap (◌∷◌ c) (take_certificates-certificate_bytes cs (omega arith)))

unmarshal_certificate-encoding :
    (cs : List (List ℕ))
    → All (λ c. 1 ≤ length c) cs × (3 + certificate_octets cs < 16777216)
    → unmarshal_certificate (encoding (certificate cs)) ≡ some (certificate cs)
unfolding unmarshal_certificate encoding be
unmarshal_certificate-encoding cs (filled, fits) =
    let n = certificate_octets cs in
    let bytes = length-certificate_bytes cs in
    let whole = encoding (certificate cs) in
    let read : u24_at 4 whole ≡ n = omega arith in
    let fits_all : (length whole % 4294967296 == n + 7) ≡ true = ground (arith, bytes) in
    let counted =
      count_certificates-certificate_bytes (length whole) cs filled (omega arith)
        (omega (arith, bytes)) in
    let taken = take_certificates-certificate_bytes cs (omega arith) in
    rw (read, fits_all, counted, taken) (ground arith)

unmarshal_ticket-encoding :
    (ticket : List ℕ)
    → length ticket < 65536
    → unmarshal_ticket (encoding (new_session_ticket ticket)) ≡ some (new_session_ticket ticket)
unfolding unmarshal_ticket encoding be
unmarshal_ticket-encoding ticket fits = ground arith

unmarshal_server_key_exchange-encoding :
    (key : List ℕ)
    → unmarshal_server_key_exchange (encoding (server_key_exchange key))
      ≡ some (server_key_exchange key)
unfolding unmarshal_server_key_exchange encoding be
unmarshal_server_key_exchange-encoding key = ground arith

unmarshal_client_key_exchange-encoding :
    (ciphertext : List ℕ)
    → length ciphertext < 16777216
    → unmarshal_client_key_exchange (encoding (client_key_exchange ciphertext))
      ≡ some (client_key_exchange ciphertext)
unfolding unmarshal_client_key_exchange encoding be
unmarshal_client_key_exchange-encoding ciphertext fits = ground arith

-- Before TLS 1.3, for a handshake message that is encoded byte by byte, whose parts fit their
-- length fields whose certificates are not empty and whose certificate types are at least one,
-- with signature algorithms where the version has them: `readHandshake` reads what `marshal`
-- writes as the message, with those bytes as its `raw`, and a second `marshal` writes them again.
pub unmarshal-marshal :
    (others : List ℕ → Option Handshake) (vers : ℕ) (m : Message)
    → vers ≢ version_tls13
    → IsEncodable vers m
    → let (bytes, kept) = marshal (record { raw = none; message = m }) in
      (unmarshal others vers bytes ≡ some kept) × (marshal kept ≡ (bytes, kept))
unfolding marshal unmarshal unmarshal_empty
unmarshal-marshal others vers hello_request old is = (refl, refl)
unmarshal-marshal others vers server_hello_done old is = (refl, refl)
unmarshal-marshal others vers (new_session_ticket ticket) old is =
    (rw (not-== old, unmarshal_ticket-encoding ticket is) refl, refl)
unmarshal-marshal others vers (certificate certificates) old is =
    (rw (not-== old, unmarshal_certificate-encoding certificates is) refl, refl)
unmarshal-marshal others vers (server_key_exchange key) old is =
    (rw (unmarshal_server_key_exchange-encoding key) refl, refl)
unmarshal-marshal others vers (client_key_exchange ciphertext) old is =
    (rw (unmarshal_client_key_exchange-encoding ciphertext is) refl, refl)
unmarshal-marshal others vers (certificate_request has types algorithms authorities) old
      (flag, is) =
    (
      rw (not-== old, sym flag, unmarshal_request-encoding has types algorithms authorities is)
          refl,
      refl,
    )

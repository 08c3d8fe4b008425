-- ===== src/Messages.antt =====
-- handshake_messages.go: the handshake messages that the program encodes byte by byte. The others are encoded
-- by golang.org/x/crypto/cryptobyte, whose code is not in the repository.
pub mod Roundtrip
pub mod Framed
pub mod Request
mod Tests
use disguise.Common.{
  ℕ, zero, suc, ◌+◌, ◌-◌, ◌*◌, ◌/◌, ◌%◌, List, [], ◌∷◌, ◌++◌, Bool, true, false, not, ◌&&◌, ◌||◌,
  ltb, leb, ◌==◌, if◌then◌else◌, Option, none, some, length, get_or, take, drop, replicate,
}
use disguise.Common.Bytes.{be, u32}
use disguise.Conn.Output.{version_tls12}
use disguise.Record.{version_tls13}
use mathlib.Core.Option as Option

abbrev pub type_hello_request : ℕ
type_hello_request = 0

abbrev pub type_new_session_ticket : ℕ
type_new_session_ticket = 4

abbrev pub type_certificate : ℕ
type_certificate = 11

abbrev pub type_server_key_exchange : ℕ
type_server_key_exchange = 12

abbrev pub type_certificate_request : ℕ
type_certificate_request = 13

abbrev pub type_server_hello_done : ℕ
type_server_hello_done = 14

abbrev pub type_client_key_exchange : ℕ
type_client_key_exchange = 16

-- The messages, with the fields that they are encoded from.
pub data Message : Type 0 where
  hello_request server_hello_done : Message
  new_session_ticket : (ticket : List ℕ) → Message
  certificate : (certificates : List (List ℕ)) → Message
  server_key_exchange : (key : List ℕ) → Message
  client_key_exchange : (ciphertext : List ℕ) → Message
  certificate_request :
      (has_signature_algorithm : Bool)
      → (certificate_types supported_signature_algorithms : List ℕ)
      → (certificate_authorities : List (List ℕ)) → Message

-- A message with its `raw`, which is none for nil.
pub record Handshake : Type 0 where
  pub raw : Option (List ℕ)
  pub message : Message

-- The certificates with their lengths, and how many bytes these are.
unfoldable pub certificate_bytes : List (List ℕ) → List ℕ
certificate_bytes [] = []
certificate_bytes (c ∷ cs) = be 3 (length c) ++ (c ++ certificate_bytes cs)

unfoldable pub certificate_octets : List (List ℕ) → ℕ
certificate_octets [] = 0
certificate_octets (c ∷ cs) = 3 + length c + certificate_octets cs

-- The signature algorithms, two bytes each.
unfoldable pub algorithm_bytes : List ℕ → List ℕ
algorithm_bytes [] = []
algorithm_bytes (a ∷ more) = be 2 a ++ algorithm_bytes more

-- The authorities with their lengths, and how many bytes these are.
unfoldable pub authority_bytes : List (List ℕ) → List ℕ
authority_bytes [] = []
authority_bytes (c ∷ cs) = be 2 (length c) ++ (c ++ authority_bytes cs)

unfoldable pub authority_octets : List (List ℕ) → ℕ
authority_octets [] = 0
authority_octets (c ∷ cs) = 2 + length c + authority_octets cs

-- The body of a certificate request behind the types.
abbrev pub request_tail : Bool → List ℕ → List (List ℕ) → List ℕ
request_tail has algorithms authorities =
    (if has then be 2 (length algorithms * 2) ++ algorithm_bytes algorithms else [])
    ++ (be 2 (authority_octets authorities) ++ authority_bytes authorities)

abbrev pub request_length : Bool → List ℕ → List ℕ → List (List ℕ) → ℕ
request_length has types algorithms authorities =
    1
    + length types
    + 2
    + authority_octets authorities
    + (if has then 2 + 2 * length algorithms else 0)

-- The type, the length in three bytes, and the body.
abbrev pub framed : ℕ → List ℕ → List ℕ
framed type body = type ∷ (be 3 (length body) ++ body)

-- What the `marshal` methods build where `raw` is nil.
unfoldable pub encoding : Message → List ℕ
unfolding certificate_bytes algorithm_bytes authority_bytes authority_octets
encoding hello_request = type_hello_request ∷ 0 ∷ 0 ∷ 0 ∷ []
encoding server_hello_done = type_server_hello_done ∷ 0 ∷ 0 ∷ 0 ∷ []
encoding (new_session_ticket ticket) =
    framed type_new_session_ticket (replicate 4 0 ++ (be 2 (length ticket) ++ ticket))
encoding (certificate certificates) =
    type_certificate
    ∷ (be 3 (3 + certificate_octets certificates)
        ++ (be 3 (certificate_octets certificates) ++ certificate_bytes certificates))
encoding (certificate_request has types algorithms authorities) =
    type_certificate_request
    ∷ (be 3 (request_length has types algorithms authorities)
        ++ (length types % 256 ∷ (types ++ request_tail has algorithms authorities)))
encoding (server_key_exchange key) = framed type_server_key_exchange key
encoding (client_key_exchange ciphertext) = framed type_client_key_exchange ciphertext

-- The messages without fields keep no `raw`.
abbrev pub keeps_raw : Message → Bool
keeps_raw hello_request = false
keeps_raw server_hello_done = false
keeps_raw m = true

abbrev pub or_raw : Option (List ℕ) → List ℕ → List ℕ
or_raw none x = x
or_raw (some raw) x = raw

-- `marshal`, and the message after it.
unfoldable pub marshal : Handshake → List ℕ × Handshake
unfolding encoding
marshal h =
    let x = or_raw h.raw (encoding h.message) in
    if keeps_raw h.message then (x, record h { raw = some x }) else (encoding h.message, h)

-- A number of three bytes, of two and of the bytes from `i` on.
abbrev pub u24_at : ℕ → List ℕ → ℕ
u24_at i bytes = get_or bytes i 0 * 65536 + get_or bytes (i + 1) 0 * 256 + get_or bytes (i + 2) 0

abbrev pub u16_at : ℕ → List ℕ → ℕ
u16_at i bytes = get_or bytes i 0 * 256 + get_or bytes (i + 1) 0

-- The loop that counts the certificates, on fuel: none is `return false`.
unfoldable pub count_certificates : ℕ → ℕ → List ℕ → Option ℕ
count_certificates zero left bytes = none
count_certificates (suc fuel) left bytes =
    let n = u24_at 0 bytes in
    let rest =
      count_certificates fuel ((left + 4294967296 - (3 + n)) % 4294967296) (drop (3 + n) bytes) in
    if left == 0
    then some 0
    else if ltb (length bytes) 4
    then none
    else if ltb (u32 (length bytes)) (3 + n)
    then none
    else Option.map suc rest

-- The loop that takes them.
unfoldable pub take_certificates : ℕ → List ℕ → List (List ℕ)
take_certificates zero bytes = []
take_certificates (suc n) bytes =
    take (u24_at 0 bytes) (drop 3 bytes) ∷ take_certificates n (drop (3 + u24_at 0 bytes) bytes)

unfoldable pub unmarshal_certificate : List ℕ → Option Message
unfolding count_certificates take_certificates
unmarshal_certificate bytes =
    let body = drop 7 bytes in
    let counted = count_certificates (suc (length bytes)) (u24_at 4 bytes) body in
    if ltb (length bytes) 7
    then none
    else if not (u32 (length bytes) == u24_at 4 bytes + 7)
    then none
    else Option.map (λ n. certificate (take_certificates n body)) counted

unfoldable pub unmarshal_ticket : List ℕ → Option Message
unmarshal_ticket bytes =
    if ltb (length bytes) 10
    then none
    else if not ((length bytes + 4294967296 - 4) % 4294967296 == u24_at 1 bytes)
    then none
    else if not (length bytes - 10 == u16_at 8 bytes)
    then none
    else some (new_session_ticket (drop 10 bytes))

unfoldable pub unmarshal_server_key_exchange : List ℕ → Option Message
unmarshal_server_key_exchange bytes =
    if ltb (length bytes) 4 then none else some (server_key_exchange (drop 4 bytes))

unfoldable pub unmarshal_client_key_exchange : List ℕ → Option Message
unmarshal_client_key_exchange bytes =
    if ltb (length bytes) 4
    then none
    else if not (u24_at 1 bytes == length bytes - 4)
    then none
    else some (client_key_exchange (drop 4 bytes))

-- The signature algorithms, and what follows them: `n` are left.
unfoldable pub take_algorithms : ℕ → List ℕ → List ℕ × List ℕ
take_algorithms zero bytes = ([], bytes)
take_algorithms (suc n) bytes =
    let (algorithms, rest) = take_algorithms n (drop 2 bytes) in (u16_at 0 bytes ∷ algorithms, rest)

unfoldable pub read_algorithms : Bool → List ℕ → Option (List ℕ × List ℕ)
unfolding take_algorithms
read_algorithms false bytes = some ([], bytes)
read_algorithms true bytes =
    if ltb (length bytes) 2
    then none
    else if not (u16_at 0 bytes % 2 == 0)
    then none
    else if ltb (length bytes - 2) (u16_at 0 bytes)
    then none
    else some (take_algorithms (u16_at 0 bytes / 2) (drop 2 bytes))

-- The loop on the authorities, on fuel.
unfoldable pub take_authorities : ℕ → List ℕ → Option (List (List ℕ))
take_authorities zero bytes = none
take_authorities (suc fuel) bytes =
    let n = u16_at 0 bytes in
    let rest = take_authorities fuel (drop (2 + n) bytes) in
    if length bytes == 0
    then some []
    else if ltb (length bytes) 2
    then none
    else if ltb (length bytes - 2) n
    then none
    else Option.map (◌∷◌ (take n (drop 2 bytes))) rest

-- The authorities, after which nothing is left.
unfoldable pub read_authorities : List ℕ → Option (List (List ℕ))
unfolding take_authorities
read_authorities bytes =
    let n = u16_at 0 bytes in
    let authorities = take_authorities (suc n) (take n (drop 2 bytes)) in
    if ltb (length bytes) 2
    then none
    else if ltb (length bytes - 2) n
    then none
    else if length bytes - 2 - n == 0
    then authorities
    else none

-- What is read behind the types.
unfoldable pub with_algorithms : Bool → List ℕ → Option (List ℕ × List ℕ) → Option Message
unfolding read_authorities
with_algorithms has types none = none
with_algorithms has types (some (algorithms, rest)) =
    Option.map (certificate_request has types algorithms) (read_authorities rest)

unfoldable pub read_request : Bool → List ℕ → List ℕ → Option Message
unfolding read_algorithms with_algorithms
read_request has types bytes = with_algorithms has types (read_algorithms has bytes)

unfoldable pub unmarshal_request : Bool → List ℕ → Option Message
unfolding read_request
unmarshal_request has bytes =
    let n = get_or bytes 4 0 in
    let types = take n (drop 5 bytes) in
    if ltb (length bytes) 5
    then none
    else if not ((length bytes + 4294967296 - 4) % 4294967296 == u24_at 1 bytes)
    then none
    else if n == 0 || leb (length bytes - 5) n
    then none
    else read_request has types (drop (5 + n) bytes)

unfoldable pub unmarshal_empty : Message → List ℕ → Option Message
unmarshal_empty m bytes = if length bytes == 4 then some m else none

abbrev pub with_raw : List ℕ → Message → Handshake
with_raw bytes m =
    if keeps_raw m
    then record { raw = some bytes; message = m }
    else record { raw = none; message = m }

-- The switch of `readHandshake` of conn.go on the type, with the `unmarshal` of each. `others` stands for the
-- messages of cryptobyte.
unfoldable pub unmarshal : (List ℕ → Option Handshake) → ℕ → List ℕ → Option Handshake
unfolding unmarshal_certificate unmarshal_ticket unmarshal_server_key_exchange
    unmarshal_client_key_exchange unmarshal_empty
unmarshal others vers bytes =
    let type = get_or bytes 0 0 in
    let read = Option.map (with_raw bytes) in
    if type == type_hello_request
    then read (unmarshal_empty hello_request bytes)
    else if type == type_new_session_ticket && not (vers == version_tls13)
    then read (unmarshal_ticket bytes)
    else if type == type_certificate && not (vers == version_tls13)
    then read (unmarshal_certificate bytes)
    else if type == type_certificate_request && not (vers == version_tls13)
    then read (unmarshal_request (leb version_tls12 vers) bytes)
    else if type == type_server_key_exchange
    then read (unmarshal_server_key_exchange bytes)
    else if type == type_server_hello_done
    then read (unmarshal_empty server_hello_done bytes)
    else if type == type_client_key_exchange
    then read (unmarshal_client_key_exchange bytes)
    else others bytes

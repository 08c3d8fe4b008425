-- ===== src/Messages/Framed.antt =====
-- The frame of an encoded message: its type, the length of its body, and the body.
use disguise.Common.{
  ℕ, ◌+◌, ◌*◌, ◌%◌, ◌<◌, ◌≡◌, refl, ap, sym, ◌∙◌, List, [], ◌∷◌, ◌++◌, Bool, true, false, length,
  length-append, replicate, arith,
}
use disguise.Common.Bytes.{be, length-be}
use disguise.Messages.{
  Message, hello_request, server_hello_done, new_session_ticket, certificate, server_key_exchange,
  client_key_exchange, certificate_request, certificate_bytes, certificate_octets, algorithm_bytes,
  authority_bytes, authority_octets, request_tail, request_length, framed, encoding,
}
use disguise.Messages.Request.{IsRequest, length-algorithm_bytes, length-authority_bytes}
use disguise.Messages.Roundtrip.{IsEncodable, length-certificate_bytes}

length-request_tail :
    (has : Bool) (types algorithms : List ℕ) (authorities : List (List ℕ))
    → length (length types % 256 ∷ (types ++ request_tail has algorithms authorities))
      ≡ request_length has types algorithms authorities
length-request_tail has types algorithms authorities = by_version has ∙ refl
  where
    tail : List ℕ
    tail = be 2 (authority_octets authorities) ++ authority_bytes authorities

    rest : length tail ≡ 2 + authority_octets authorities
    rest = omega (
      arith,
      length-append (be 2 (authority_octets authorities)) (authority_bytes authorities),
      length-be 2 (authority_octets authorities),
      length-authority_bytes authorities,
    )

    by_version :
        (has : Bool)
        → length (length types % 256 ∷ (types ++ request_tail has algorithms authorities))
          ≡ request_length has types algorithms authorities
    by_version false = omega (arith, length-append types tail, rest)
    by_version true =
        let front = be 2 (length algorithms * 2) ++ algorithm_bytes algorithms in
        omega (
          arith,
          length-append types (front ++ tail),
          length-append front tail,
          length-append (be 2 (length algorithms * 2)) (algorithm_bytes algorithms),
          length-be 2 (length algorithms * 2),
          length-algorithm_bytes algorithms,
          rest,
        )

pub encoding-framed :
    (vers : ℕ) (m : Message)
    → IsEncodable vers m
    → (type : ℕ) × (body : List ℕ) × (encoding m ≡ framed type body) × (length body < 16777216)
unfolding encoding be
encoding-framed vers hello_request is = (_, [], refl, omega arith)
encoding-framed vers server_hello_done is = (_, [], refl, omega arith)
encoding-framed vers (new_session_ticket ticket) is = (
  _,
  replicate 4 0 ++ (be 2 (length ticket) ++ ticket),
  refl,
  omega (arith, is, length-append (be 2 (length ticket)) ticket, length-be 2 (length ticket)),
)
encoding-framed vers (certificate cs) (filled, fits) =
    let body = be 3 (certificate_octets cs) ++ certificate_bytes cs in
    let size : length body ≡ 3 + certificate_octets cs = omega (
      arith,
      length-append (be 3 (certificate_octets cs)) (certificate_bytes cs),
      length-be 3 (certificate_octets cs),
      length-certificate_bytes cs,
    ) in
    (_, body, ap (λ n. 11 ∷ (be 3 n ++ body)) (sym size), omega (arith, size, fits))
encoding-framed vers (server_key_exchange key) is = (_, key, refl, is)
encoding-framed vers (client_key_exchange ciphertext) is = (_, ciphertext, refl, is)
encoding-framed vers (certificate_request has types algorithms authorities) (flag, is) =
    let body = length types % 256 ∷ (types ++ request_tail has algorithms authorities) in
    let size = length-request_tail has types algorithms authorities in
    (_, body, ap (λ n. 13 ∷ (be 3 n ++ body)) (sym size), fits has size is)
  where
    fits :
        (has : Bool)
        → length (length types % 256 ∷ (types ++ request_tail has algorithms authorities))
          ≡ request_length has types algorithms authorities
        → IsRequest has types algorithms authorities
        → length (length types % 256 ∷ (types ++ request_tail has algorithms authorities))
          < 16777216
    fits true size is = omega (arith, size, is.types_fit, is.algorithms_short, is.authorities_short)
    fits false size is = omega (arith, size, is.types_fit, is.authorities_short)

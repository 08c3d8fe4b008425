-- ===== src/Messages/Tests.antt =====
-- Concrete runs of the handshake messages, and their theorem at a concrete input.
use disguise.Common.{ℕ, ◌≡◌, refl, List, [], ◌∷◌, Option, none, some, arith}
use disguise.Messages.{
  Message, certificate, Handshake, certificate_octets, marshal, unmarshal, unmarshal_certificate,
}
use disguise.Messages.Roundtrip.{IsEncodable, unmarshal-marshal}

abbrev others : List ℕ → Option Handshake
others bytes = none

-- Two certificates, of one byte and of two.
abbrev chain : Message
chain = certificate ((7 ∷ []) ∷ (8 ∷ 9 ∷ []) ∷ [])

-- A chain that ends with an empty certificate is not read.
empty_certificate : unmarshal_certificate (11 ∷ 0 ∷ 0 ∷ 6 ∷ 0 ∷ 0 ∷ 3 ∷ 0 ∷ 0 ∷ 0 ∷ []) ≡ none
unfolding unmarshal_certificate
empty_certificate = refl

chain-IsEncodable : IsEncodable 771 chain
unfolding certificate_octets
chain-IsEncodable = ((omega arith, (omega arith, tt)), omega arith)

unmarshal-marshal_example :
    let (bytes, kept) = marshal (record { raw = none; message = chain }) in
    (unmarshal others 771 bytes ≡ some kept) × (marshal kept ≡ (bytes, kept))
unmarshal-marshal_example = unmarshal-marshal others 771 chain (omega arith) chain-IsEncodable

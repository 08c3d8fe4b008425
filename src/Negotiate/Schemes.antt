-- ===== src/Negotiate/Schemes.antt =====
-- auth.go: the signature schemes of a certificate, and the choice of one of them.
pub mod Selected
use disguise.Common.{
  ℕ, ◌+◌, Bool, true, false, not, ◌&&◌, ◌||◌, Option, none, some, List, [], ◌∷◌, Outcome, ok, err,
  tls_error, unsupported_signature, unsupported_public_key, unsupported_certificate,
  no_mutual_signature, leb, ◌==◌, if◌then◌else◌,
}
use disguise.Common.Choice.{contains, first_where}
use disguise.Keys.{HashId, no_hash, id_md5_sha1, id_sha1, id_sha256, id_sha384, id_sha512}
use disguise.Negotiate.Versions.{keep_where}

-- The values of `SignatureScheme`.
abbrev pub pkcs1_with_sha256 : ℕ
pkcs1_with_sha256 = 0x0401

abbrev pub pkcs1_with_sha384 : ℕ
pkcs1_with_sha384 = 0x0501

abbrev pub pkcs1_with_sha512 : ℕ
pkcs1_with_sha512 = 0x0601

abbrev pub pss_with_sha256 : ℕ
pss_with_sha256 = 0x0804

abbrev pub pss_with_sha384 : ℕ
pss_with_sha384 = 0x0805

abbrev pub pss_with_sha512 : ℕ
pss_with_sha512 = 0x0806

abbrev pub ecdsa_with_p256_and_sha256 : ℕ
ecdsa_with_p256_and_sha256 = 0x0403

abbrev pub ecdsa_with_p384_and_sha384 : ℕ
ecdsa_with_p384_and_sha384 = 0x0503

abbrev pub ecdsa_with_p521_and_sha512 : ℕ
ecdsa_with_p521_and_sha512 = 0x0603

abbrev pub ed25519_scheme : ℕ
ed25519_scheme = 0x0807

abbrev pub pkcs1_with_sha1 : ℕ
pkcs1_with_sha1 = 0x0201

abbrev pub ecdsa_with_sha1 : ℕ
ecdsa_with_sha1 = 0x0203

-- The signature types.
abbrev pub signature_pkcs1v15 : ℕ
signature_pkcs1v15 = 225

abbrev pub signature_rsa_pss : ℕ
signature_rsa_pss = 226

abbrev pub signature_ecdsa : ℕ
signature_ecdsa = 227

abbrev pub signature_ed25519 : ℕ
signature_ed25519 = 228

-- The first switch of `typeAndHashFromSignatureScheme`.
unfoldable pub sig_type_of : ℕ → Option ℕ
sig_type_of s =
    if s == pkcs1_with_sha1
      || s == pkcs1_with_sha256
      || s == pkcs1_with_sha384
      || s == pkcs1_with_sha512
    then some signature_pkcs1v15
    else if s == pss_with_sha256 || s == pss_with_sha384 || s == pss_with_sha512
    then some signature_rsa_pss
    else if s == ecdsa_with_sha1
        || s == ecdsa_with_p256_and_sha256
        || s == ecdsa_with_p384_and_sha384
        || s == ecdsa_with_p521_and_sha512
    then some signature_ecdsa
    else if s == ed25519_scheme
    then some signature_ed25519
    else none

-- The second switch.
unfoldable pub hash_of : ℕ → Option HashId
hash_of s =
    if s == pkcs1_with_sha1 || s == ecdsa_with_sha1
    then some id_sha1
    else if s == pkcs1_with_sha256 || s == pss_with_sha256 || s == ecdsa_with_p256_and_sha256
    then some id_sha256
    else if s == pkcs1_with_sha384 || s == pss_with_sha384 || s == ecdsa_with_p384_and_sha384
    then some id_sha384
    else if s == pkcs1_with_sha512 || s == pss_with_sha512 || s == ecdsa_with_p521_and_sha512
    then some id_sha512
    else if s == ed25519_scheme
    then some no_hash
    else none

unfoldable pub type_and_hash_from_signature_scheme : ℕ → Outcome (ℕ × HashId)
type_and_hash_from_signature_scheme s = elim (sig_type_of s) [
  | none ↦ err (tls_error unsupported_signature)
  | some t ↦ elim (hash_of s) [ none ↦ err (tls_error unsupported_signature) | some h ↦ ok (t, h) ]
]

-- `elliptic.Curve`, and the keys that the type switches tell apart; the size of an RSA key is in bytes.
pub data Curve : Type 0 where
  p256 p384 p521 other_curve : Curve

pub data PublicKey : Type 0 where
  ecdsa_key : Curve → PublicKey
  rsa_key : ℕ → PublicKey
  ed25519_key other_key : PublicKey

unfoldable pub legacy_type_and_hash_from_public_key : PublicKey → Outcome (ℕ × HashId)
legacy_type_and_hash_from_public_key (rsa_key n) = ok (signature_pkcs1v15, id_md5_sha1)
legacy_type_and_hash_from_public_key (ecdsa_key c) = ok (signature_ecdsa, id_sha1)
legacy_type_and_hash_from_public_key ed25519_key = err (tls_error unsupported_public_key)
legacy_type_and_hash_from_public_key other_key = err (tls_error unsupported_public_key)

-- The public key is none where the private key is not a `crypto.Signer`; the algorithms are none for nil.
pub record Certificate : Type 0 where
  pub public_key : Option PublicKey
  pub supported_signature_algorithms : Option (List ℕ)

-- `rsaSignatureSchemes`: the scheme, the least size of the modulus, and the highest version.
abbrev pub rsa_signature_schemes : List (ℕ × ℕ × ℕ)
rsa_signature_schemes =
    (pss_with_sha256, 66, 0x0304)
    ∷ (pss_with_sha384, 98, 0x0304)
    ∷ (pss_with_sha512, 130, 0x0304)
    ∷ (pkcs1_with_sha256, 62, 0x0303)
    ∷ (pkcs1_with_sha384, 78, 0x0303)
    ∷ (pkcs1_with_sha512, 94, 0x0303)
    ∷ (pkcs1_with_sha1, 46, 0x0303)
    ∷ []

abbrev pub rsa_loop : ℕ → ℕ → List (ℕ × ℕ × ℕ) → List ℕ
rsa_loop version size [] = []
rsa_loop version size ((scheme, least, highest) ∷ candidates) =
    let rest = rsa_loop version size candidates in
    if leb least size && leb version highest then scheme ∷ rest else rest

-- The type switch, whose `return nil` is none.
unfoldable pub key_schemes : ℕ → PublicKey → Option (List ℕ)
key_schemes version (ecdsa_key c) =
    if not (version == 0x0304)
    then some (
        ecdsa_with_p256_and_sha256 ∷ ecdsa_with_p384_and_sha384 ∷ ecdsa_with_p521_and_sha512
        ∷ ecdsa_with_sha1 ∷ [])
    else elim c [
      | p256 ↦ some (ecdsa_with_p256_and_sha256 ∷ [])
      | p384 ↦ some (ecdsa_with_p384_and_sha384 ∷ [])
      | p521 ↦ some (ecdsa_with_p521_and_sha512 ∷ [])
      | other_curve ↦ none
    ]
key_schemes version (rsa_key size) = some (rsa_loop version size rsa_signature_schemes)
key_schemes version ed25519_key = some (ed25519_scheme ∷ [])
key_schemes version other_key = none

unfoldable pub filtered : Option (List ℕ) → List ℕ → List ℕ
filtered none schemes = schemes
filtered (some allowed) schemes = keep_where (λ s. contains s allowed) schemes

unfoldable pub signature_schemes_for_certificate : ℕ → Certificate → List ℕ
signature_schemes_for_certificate version cert = elim cert.public_key [
  | none ↦ []
  | some key ↦ elim (key_schemes version key) [
    | none ↦ []
    | some schemes ↦ filtered cert.supported_signature_algorithms schemes
  ]
]

-- The peer's algorithms, with what TLS 1.2 takes for them where there are none.
unfoldable pub peer_schemes : ℕ → List ℕ → List ℕ
peer_schemes version [] = if version == 0x0303 then pkcs1_with_sha1 ∷ ecdsa_with_sha1 ∷ [] else []
peer_schemes version (s ∷ ss) = s ∷ ss

unfoldable pub select_signature_scheme : ℕ → Certificate → List ℕ → Outcome ℕ
select_signature_scheme version cert peer = elim (signature_schemes_for_certificate version cert) [
  | [] ↦ err (tls_error unsupported_certificate)
  | s ∷ ss ↦ elim (first_where (λ a. contains a (s ∷ ss)) (peer_schemes version peer)) [
    | some a ↦ ok a
    | none ↦ err (tls_error no_mutual_signature)
  ]
]

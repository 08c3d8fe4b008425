-- ===== src/Negotiate/Schemes/Selected.antt =====
-- The signature scheme that is selected fits the key and the version, and is the peer's first that does.
use disguise.Common.{
  ℕ, ◌≡◌, refl, ap, ◌∙◌, inl, inr, Bool-cases, Option-cases, Bool, true, false, ◌&&◌, ◌||◌, Option,
  none, some, List, [], ◌∷◌, All, ok, ok-injective, err, tls_error, unsupported_certificate,
  no_mutual_signature, leb, ◌==◌, if◌then◌else◌, arith,
}
use disguise.Common.Choice.{contains, first_where, IsFirst, first_where-some, All-contains}
use disguise.Keys.{HashId, no_hash, id_sha1, id_sha256, id_sha384, id_sha512}
use disguise.Negotiate.Agreed.{All-keep_where}
use disguise.Negotiate.Schemes.{
  signature_pkcs1v15, signature_rsa_pss, signature_ecdsa, signature_ed25519, sig_type_of, hash_of,
  type_and_hash_from_signature_scheme, PublicKey, ecdsa_key, rsa_key, ed25519_key, other_key, p256,
  p384, p521, other_curve, Curve, ecdsa_with_p256_and_sha256, ecdsa_with_p384_and_sha384,
  ecdsa_with_p521_and_sha512, rsa_signature_schemes, rsa_loop, key_schemes, filtered,
  signature_schemes_for_certificate, peer_schemes, select_signature_scheme,
}

-- Whether a key makes signatures of a type.
abbrev pub makes : PublicKey → ℕ → Bool
makes (rsa_key n) t = t == signature_pkcs1v15 || t == signature_rsa_pss
makes (ecdsa_key c) t = t == signature_ecdsa
makes ed25519_key t = t == signature_ed25519
makes other_key t = false

-- What TLS 1.3 no longer allows: PKCS #1 v1.5, and SHA-1.
abbrev pub is_dropped : ℕ → HashId → Bool
is_dropped t id_sha1 = true
is_dropped t h = t == signature_pkcs1v15

-- `typeAndHashFromSignatureScheme` knows the scheme, its type is one of the key, and it is allowed.
pub record IsSuitable (version : ℕ) (key : PublicKey) (s : ℕ) : Type 0 where
  pub sig_type : ℕ
  pub hash : HashId
  pub known : type_and_hash_from_signature_scheme s ≡ ok (sig_type, hash)
  pub made : makes key sig_type ≡ true
  pub allowed : (version == 0x0304 && is_dropped sig_type hash) ≡ false

-- A scheme that is allowed in every version, and one that is allowed before TLS 1.3.
modern :
    (version : ℕ) (key : PublicKey) (s t : ℕ) (h : HashId)
    → type_and_hash_from_signature_scheme s ≡ ok (t, h)
    → makes key t ≡ true
    → is_dropped t h ≡ false
    → IsSuitable version key s
modern version key s t h known made fine = record {
  sig_type = t;
  hash = h;
  known = known;
  made = made;
  allowed = rw fine (and_false (version == 0x0304));
}
  where
    and_false : (b : Bool) → (b && false) ≡ false
    and_false true = refl
    and_false false = refl

legacy :
    (version : ℕ) (key : PublicKey) (s t : ℕ) (h : HashId)
    → type_and_hash_from_signature_scheme s ≡ ok (t, h)
    → makes key t ≡ true
    → (version == 0x0304) ≡ false
    → IsSuitable version key s
legacy version key s t h known made old = record {
  sig_type = t;
  hash = h;
  known = known;
  made = made;
  allowed = rw old refl;
}

-- Each candidate in the table, where its version test holds.
rsa_loop-IsSuitable :
    (version size : ℕ) (candidates : List (ℕ × ℕ × ℕ))
    → All (λ c. leb version c.2 ≡ true → IsSuitable version (rsa_key size) c.0) candidates
    → All (IsSuitable version (rsa_key size)) (rsa_loop version size candidates)
rsa_loop-IsSuitable version size [] h = tt
rsa_loop-IsSuitable version size ((s, least, highest) ∷ candidates) h =
    let rest = rsa_loop-IsSuitable version size candidates h.1 in
    elim (Bool-cases (leb version highest)) [
      | inl fits ↦ with_candidate (leb least size && leb version highest) _ (h.0 fits) rest
      | inr over ↦ rw (over, none_passes (leb least size)) rest
    ]
  where
    with_candidate :
        (b : Bool) (ss : List ℕ)
        → IsSuitable version (rsa_key size) s
        → All (IsSuitable version (rsa_key size)) ss
        → All (IsSuitable version (rsa_key size)) (if b then s ∷ ss else ss)
    with_candidate true ss first rest = (first, rest)
    with_candidate false ss first rest = rest

    none_passes : (b : Bool) → (b && false) ≡ false
    none_passes true = refl
    none_passes false = refl

-- All that the type switch gives, if anything.
abbrev AllSuitable : ℕ → PublicKey → Option (List ℕ) → Type 0
AllSuitable version key none = Unit {0}
AllSuitable version key (some ss) = All (IsSuitable version key) ss

key_schemes-AllSuitable :
    (version : ℕ) (key : PublicKey) → AllSuitable version key (key_schemes version key)
unfolding key_schemes type_and_hash_from_signature_scheme sig_type_of hash_of
key_schemes-AllSuitable version (rsa_key n) = rsa_loop-IsSuitable version n rsa_signature_schemes (
  λ v. modern version (rsa_key n) _ signature_rsa_pss id_sha256 refl refl refl,
  (
    λ v. modern version (rsa_key n) _ signature_rsa_pss id_sha384 refl refl refl,
    (
      λ v. modern version (rsa_key n) _ signature_rsa_pss id_sha512 refl refl refl,
      (
        λ v. legacy version (rsa_key n) _ signature_pkcs1v15 id_sha256 refl refl (not_tls13 v),
        (
          λ v. legacy version (rsa_key n) _ signature_pkcs1v15 id_sha384 refl refl (not_tls13 v),
          (
            λ v. legacy version (rsa_key n) _ signature_pkcs1v15 id_sha512 refl refl (not_tls13 v),
            (
              λ v. legacy version (rsa_key n) _ signature_pkcs1v15 id_sha1 refl refl (not_tls13 v),
              tt,
            ),
          ),
        ),
      ),
    ),
  ),
)
  where
    not_tls13 : leb version 0x0303 ≡ true → (version == 0x0304) ≡ false
    not_tls13 h = ground (arith, h)
key_schemes-AllSuitable version (ecdsa_key c) = elim (Bool-cases (version == 0x0304)) [
  | inl new ↦ rw (key_schemes, new) (of_curve c)
  | inr old ↦
      rw (key_schemes, old)
        (
          modern version (ecdsa_key c) _ signature_ecdsa id_sha256 refl refl refl,
          (
            modern version (ecdsa_key c) _ signature_ecdsa id_sha384 refl refl refl,
            (
              modern version (ecdsa_key c) _ signature_ecdsa id_sha512 refl refl refl,
              (legacy version (ecdsa_key c) _ signature_ecdsa id_sha1 refl refl old, tt),
            ),
          ),
        )
]
  where
    of_curve :
        (c : Curve)
        → AllSuitable version (ecdsa_key c) (elim c [
          | p256 ↦ some (ecdsa_with_p256_and_sha256 ∷ [])
          | p384 ↦ some (ecdsa_with_p384_and_sha384 ∷ [])
          | p521 ↦ some (ecdsa_with_p521_and_sha512 ∷ [])
          | other_curve ↦ none
        ])
    of_curve p256 = (modern version (ecdsa_key p256) _ signature_ecdsa id_sha256 refl refl refl, tt)
    of_curve p384 = (modern version (ecdsa_key p384) _ signature_ecdsa id_sha384 refl refl refl, tt)
    of_curve p521 = (modern version (ecdsa_key p521) _ signature_ecdsa id_sha512 refl refl refl, tt)
    of_curve other_curve = tt
key_schemes-AllSuitable version ed25519_key =
    (modern version ed25519_key _ signature_ed25519 no_hash refl refl refl, tt)
key_schemes-AllSuitable version other_key = tt

filtered-AllSuitable :
    (version : ℕ) (key : PublicKey) (allowed : Option (List ℕ)) (ss : List ℕ)
    → All (IsSuitable version key) ss
    → All (IsSuitable version key) (filtered allowed ss)
unfolding filtered
filtered-AllSuitable version key none ss h = h
filtered-AllSuitable version key (some allowed) ss h =
    All-keep_where (IsSuitable version key) (λ s. contains s allowed) ss h

pub schemes-IsSuitable :
    (version : ℕ) (key : PublicKey) (allowed : Option (List ℕ))
    → All (IsSuitable version key) (
        signature_schemes_for_certificate version
          (record { public_key = some key; supported_signature_algorithms = allowed }))
unfolding signature_schemes_for_certificate
schemes-IsSuitable version key allowed =
    go (key_schemes version key) (key_schemes-AllSuitable version key)
  where
    go :
        (o : Option (List ℕ))
        → AllSuitable version key o
        → All (IsSuitable version key) (elim o [ none ↦ [] | some ss ↦ filtered allowed ss ])
    go none h = tt
    go (some ss) h = filtered-AllSuitable version key allowed ss h

-- Where a scheme is selected for a certificate, it is the first of the peer's (in TLS 1.2, of the
-- two that stand in for an empty list) that the certificate supports, and it fits the key and the
-- version: its signature type and hash are known, the key makes signatures of that type, and in
-- TLS 1.3 it is neither PKCS #1 v1.5 nor SHA-1.
pub select_signature_scheme_lem :
    (version : ℕ) (key : PublicKey) (allowed : Option (List ℕ)) (peer : List ℕ) (s : ℕ)
    → select_signature_scheme version
        (record { public_key = some key; supported_signature_algorithms = allowed })
        peer
      ≡ ok s
    → IsFirst
        (λ a. contains a (
          signature_schemes_for_certificate version
            (record { public_key = some key; supported_signature_algorithms = allowed })))
        (peer_schemes version peer)
        s
      × IsSuitable version key s
unfolding select_signature_scheme
select_signature_scheme_lem version key allowed peer s h =
    let first =
      from_list
        (signature_schemes_for_certificate version
          (record { public_key = some key; supported_signature_algorithms = allowed }))
        h in
    (
      first,
      All-contains (IsSuitable version key) _ s (schemes-IsSuitable version key allowed)
          first.passes,
    )
  where
    not_ok : err (tls_error no_mutual_signature) ≡ ok s → ⊥
    not_ok e = cc

    from_list :
        (ss : List ℕ)
        → (elim ss [
          | [] ↦ err (tls_error unsupported_certificate)
          | s ∷ ss ↦ elim (first_where (λ a. contains a (s ∷ ss)) (peer_schemes version peer)) [
            | some a ↦ ok a
            | none ↦ err (tls_error no_mutual_signature)
          ]
        ])
          ≡ ok s
        → IsFirst (λ a. contains a ss) (peer_schemes version peer) s
    from_list [] h = absurd cc
    from_list (t ∷ ss) h =
        elim (Option-cases (first_where (λ a. contains a (t ∷ ss)) (peer_schemes version peer))) [
          | inl gone ↦ absurd (not_ok (rw gone at h))
          | inr (a, found) ↦
              let same : ok a ≡ ok s = rw found at h in
              first_where-some _ _ (found ∙ ap some (ok-injective same))
        ]

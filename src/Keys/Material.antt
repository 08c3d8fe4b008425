-- ===== src/Keys/Material.antt =====
-- What the pseudo-random functions return, and the six keys that the key material is cut into.
use disguise.Common.{
  ℕ, zero, suc, ◌+◌, ◌*◌, ◌/◌, ◌≤◌, ◌<◌, ◌≡◌, refl, ap, ◌∙◌, Bool, true, false, List, [], ◌∷◌, ◌++◌,
  ok, length, take, drop, replicate, copy, copy_from, leb, le→leb, length-append, length-replicate,
  length-take, copy_full, arith,
}
use disguise.Common.Bytes.{slice, slice_from}
use disguise.Keys.{
  Hash, Hashes, Prf, HashId, no_hash, id_sha256, id_sha384, split_pre_master_secret, p_hash,
  label_and_seed, xor_into, prf10, prf12, prf_and_hash_for_version,
}
use disguise.Keys.Expansion.{chained, blocks, p_hash_lem}
use native.Mathlib.Nat.{sub-zero, suc-mul, le-mul_of_pos_right}
use mathlib.Core.List.{append-nil}

-- An HMAC is as long as `Size` says, which is not 0.
pub record IsSized (hash : Hash) : Type 0 where
  pub sized : (key t : List ℕ) → length (hash.hmac key t) ≡ hash.size
  pub positive : 0 < hash.size

pub record AreSized (hashes : Hashes) : Type 0 where
  pub md5 : IsSized hashes.md5
  pub sha1 : IsSized hashes.sha1
  pub sha256 : IsSized hashes.sha256
  pub sha384 : IsSized hashes.sha384

overwritten :
    (label seed dst : List ℕ)
    → length dst ≡ length label + length seed
    → copy_from (length label) (copy dst label) seed ≡ label ++ seed
overwritten [] seed [] h = copy_full [] seed (omega (arith, h))
overwritten [] seed (d ∷ dst) h = copy_full (d ∷ dst) seed (omega (arith, h))
overwritten (x ∷ label) seed [] h = absurd (omega (arith, h))
overwritten (x ∷ label) seed (d ∷ dst) h =
    ap (◌∷◌ x) (overwritten label seed dst (omega (arith, h)))

-- `labelAndSeed` is the one after the other.
pub label_and_seed_lem : (label seed : List ℕ) → label_and_seed label seed ≡ label ++ seed
unfolding label_and_seed
label_and_seed_lem label seed =
    overwritten label seed (replicate (length label + length seed) 0)
      (length-replicate (length label + length seed) 0)

length-blocks :
    (mac : List ℕ → List ℕ) (size : ℕ)
    → ((t : List ℕ) → length (mac t) ≡ size)
    → (seed : List ℕ) (i n : ℕ) → length (blocks mac seed i n) ≡ n * size
length-blocks mac size h seed i zero = omega arith
length-blocks mac size h seed i (suc n) =
    let block = mac (chained mac seed (suc i) ++ seed) in
    omega (
      arith,
      length-append block (blocks mac seed (suc i) n),
      h (chained mac seed (suc i) ++ seed),
      length-blocks mac size h seed (suc i) n,
      suc-mul n size,
    )

pub slice_front : (n : ℕ) (s : List ℕ) → n ≤ length s → slice 0 n s [] ≡ ok (take n s)
unfolding slice
slice_front n s h =
    let fits : leb n (length s + 0) ≡ true = ground (arith, h) in
    rw (le→leb 0 n (omega arith), fits, append-nil s, sub-zero) refl

pub slice_from_lem : (n : ℕ) (s : List ℕ) → n ≤ length s → slice_from n s ≡ ok (drop n s)
unfolding slice_from
slice_from_lem n s h = rw (le→leb n (length s) h) refl

-- Any hash fills the result.
pub length-p_hash :
    (hash : Hash) (result secret seed : List ℕ)
    → IsSized hash
    → (out : List ℕ) × (p_hash hash result secret seed ≡ ok out) × (length out ≡ length result)
length-p_hash hash result secret seed h =
    let n = length result in
    let enough : n ≤ n * hash.size = le-mul_of_pos_right n h.positive in
    let out = blocks (hash.hmac secret) seed 0 n in
    (
      take n out,
      p_hash_lem hash result secret seed n h.sized h.positive enough,
      length-take n out
          ∙ omega
              (arith, length-blocks (hash.hmac secret) hash.size (h.sized secret) seed 0 n, enough),
    )

length-xor_into : (xs bs : List ℕ) → length (xor_into xs bs) ≡ length xs
unfolding xor_into
length-xor_into [] bs = refl
length-xor_into (x ∷ xs) [] = refl
length-xor_into (x ∷ xs) (b ∷ bs) = ap suc (length-xor_into xs bs)

-- A pseudo-random function fills the result that it is given.
abbrev pub Fills : Prf → Type 0
Fills prf =
    (result secret label seed : List ℕ)
    → (out : List ℕ) × (prf result secret label seed ≡ ok out) × (length out ≡ length result)

pub prf12-Fills : (hash : Hash) → IsSized hash → Fills (prf12 hash)
unfolding prf12
prf12-Fills hash h result secret label seed =
    length-p_hash hash result secret (label_and_seed label seed) h

-- The halves of a secret, which share a byte where its length is odd.
pub split_pre_master_secret_lem :
    (secret : List ℕ)
    → split_pre_master_secret secret
      ≡ ok (take ((length secret + 1) / 2) secret, drop (length secret / 2) secret)
unfolding split_pre_master_secret
split_pre_master_secret_lem secret =
    rw
      (
        slice_front ((length secret + 1) / 2) secret (omega arith),
        slice_from_lem (length secret / 2) secret (omega arith),
      )
      refl

pub prf10-Fills : (hashes : Hashes) → AreSized hashes → Fills (prf10 hashes)
unfolding prf10
prf10-Fills hashes h result secret label seed =
    let text = label_and_seed label seed in
    let s1 = take ((length secret + 1) / 2) secret in
    let s2 = drop (length secret / 2) secret in
    let (first, e1, l1) = length-p_hash hashes.md5 result s1 text h.md5 in
    let (second, e2, l2) = length-p_hash hashes.sha1 (replicate (length result) 0) s2 text h.sha1 in
    (
      xor_into first second,
      rw (split_pre_master_secret_lem secret, e1, e2) refl,
      length-xor_into first second ∙ l1,
    )

-- TLS 1.0, 1.1 and 1.2.
pub data IsOld : ℕ → Type 0 where
  is_tls10 : IsOld 0x0301
  is_tls11 : IsOld 0x0302
  is_tls12 : IsOld 0x0303

-- A version before TLS 1.3 has a pseudo-random function, which fills the result that it is given.
pub prf_and_hash_for_version_lem :
    (hashes : Hashes) (version : ℕ) (sha384 : Bool)
    → AreSized hashes
    → IsOld version
    → (prf : Prf) × (hash : HashId) × (prf_and_hash_for_version hashes version sha384
        ≡ ok (prf, hash))
      × Fills prf
unfolding prf_and_hash_for_version
prf_and_hash_for_version_lem hashes _ sha384 h is_tls10 =
    (prf10 hashes, no_hash, refl, prf10-Fills hashes h)
prf_and_hash_for_version_lem hashes _ sha384 h is_tls11 =
    (prf10 hashes, no_hash, refl, prf10-Fills hashes h)
prf_and_hash_for_version_lem hashes _ true h is_tls12 =
    (prf12 hashes.sha384, id_sha384, refl, prf12-Fills hashes.sha384 h.sha384)
prf_and_hash_for_version_lem hashes _ false h is_tls12 =
    (prf12 hashes.sha256, id_sha256, refl, prf12-Fills hashes.sha256 h.sha256)

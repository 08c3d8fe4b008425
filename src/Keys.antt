-- ===== src/Keys.antt =====
-- prf.go: the pseudo-random functions of TLS 1.0 to 1.2, and the keys that come from them. The hashes of
-- Go's crypto packages and their HMAC are the interface `Hash`.
pub mod Expansion
pub mod Material
pub mod Cut
pub mod Finished
mod Tests
use disguise.Common.{
  ℕ, zero, suc, ◌+◌, ◌*◌, ◌/◌, List, [], ◌∷◌, ◌++◌, Outcome, ok, panic, out_of_fuel, ◌>>=◌, length,
  take, drop, replicate, copy, copy_from, ltb, leb, if◌then◌else◌, Bool, true, false, ◌||◌, ◌==◌,
}
use disguise.Common.Bytes.{slice, slice_from}
use Prim.Native.Nat.{bit_xor, bit_and}

-- What `Sum` gives after writes that add up to a text, the HMAC under a key, and `Size`.
pub record Hash : Type 0 where
  pub digest : List ℕ → List ℕ
  pub hmac : List ℕ → List ℕ → List ℕ
  pub size : ℕ

-- The hashes that the package asks for.
pub record Hashes : Type 0 where
  pub md5 : Hash
  pub sha1 : Hash
  pub sha256 : Hash
  pub sha384 : Hash

unfoldable pub split_pre_master_secret : List ℕ → Outcome (List ℕ × List ℕ)
split_pre_master_secret secret = do
  s1 ← slice 0 ((length secret + 1) / 2) secret []
  s2 ← slice_from (length secret / 2) secret
  ok (s1, s2)

-- The loop of `pHash`, with the HMAC `mac` under the secret: the result, the seed, `a` and `j`.
unfoldable pub p_loop : ℕ → (List ℕ → List ℕ) → List ℕ → List ℕ → List ℕ → ℕ → Outcome (List ℕ)
p_loop zero mac result seed a j = out_of_fuel
p_loop (suc fuel) mac result seed a j =
    let b = mac (a ++ seed) in
    let rest = p_loop fuel mac (copy_from j result b) seed (mac a) (j + length b) in
    if ltb j (length result) then rest else ok result

-- The result, which comes in as a slice of zeros, is written over.
unfoldable pub p_hash : Hash → List ℕ → List ℕ → List ℕ → Outcome (List ℕ)
p_hash hash result secret seed =
    p_loop (suc (length result)) (hash.hmac secret) result seed (hash.hmac secret seed) 0

-- `labelAndSeed`.
unfoldable pub label_and_seed : List ℕ → List ℕ → List ℕ
label_and_seed label seed =
    copy_from (length label) (copy (replicate (length label + length seed) 0) label) seed

-- `result[i] ^= b` for the bytes of the second result.
unfoldable pub xor_into : List ℕ → List ℕ → List ℕ
xor_into [] bs = []
xor_into (x ∷ xs) [] = x ∷ xs
xor_into (x ∷ xs) (b ∷ bs) = bit_xor x b ∷ xor_into xs bs

-- A pseudo-random function: the result, the secret, the label and the seed.
abbrev pub Prf : Type 0
Prf = List ℕ → List ℕ → List ℕ → List ℕ → Outcome (List ℕ)

unfoldable pub prf10 : Hashes → Prf
prf10 hashes result secret label seed = do
  (s1, s2) ← split_pre_master_secret secret
  first ← p_hash hashes.md5 result s1 (label_and_seed label seed)
  second ← p_hash hashes.sha1 (replicate (length result) 0) s2 (label_and_seed label seed)
  ok (xor_into first second)

unfoldable pub prf12 : Hash → Prf
prf12 hash result secret label seed = p_hash hash result secret (label_and_seed label seed)

-- `crypto.Hash`; `no_hash` is 0, which is also `directSigning`.
pub data HashId : Type 0 where
  no_hash id_md5_sha1 id_sha1 id_sha256 id_sha384 id_sha512 : HashId

-- `suite.flags&suiteSHA384 != 0`.
unfoldable pub prf_and_hash_for_version : Hashes → ℕ → Bool → Outcome (Prf × HashId)
prf_and_hash_for_version hashes version sha384 =
    if version == 0x0301 || version == 0x0302
    then ok (prf10 hashes, no_hash)
    else if version == 0x0303
    then (if sha384
        then ok (prf12 hashes.sha384, id_sha384)
        else ok (prf12 hashes.sha256, id_sha256))
    else panic

-- `masterSecretLabel` and the other labels.
abbrev pub master_secret_label : List ℕ
master_secret_label = 109 ∷ 97 ∷ 115 ∷ 116 ∷ 101 ∷ 114 ∷ 32 ∷ 115 ∷ 101 ∷ 99 ∷ 114 ∷ 101 ∷ 116 ∷ []

abbrev pub key_expansion_label : List ℕ
key_expansion_label = 107 ∷ 101 ∷ 121 ∷ 32 ∷ 101 ∷ 120 ∷ 112 ∷ 97 ∷ 110 ∷ 115 ∷ 105 ∷ 111 ∷ 110 ∷ []

abbrev pub client_finished_label : List ℕ
client_finished_label =
    99 ∷ 108 ∷ 105 ∷ 101 ∷ 110 ∷ 116 ∷ 32 ∷ 102 ∷ 105 ∷ 110 ∷ 105 ∷ 115 ∷ 104 ∷ 101 ∷ 100 ∷ []

abbrev pub server_finished_label : List ℕ
server_finished_label =
    115 ∷ 101 ∷ 114 ∷ 118 ∷ 101 ∷ 114 ∷ 32 ∷ 102 ∷ 105 ∷ 110 ∷ 105 ∷ 115 ∷ 104 ∷ 101 ∷ 100 ∷ []

unfoldable pub master_from_pre_master_secret :
    Hashes → ℕ → Bool → List ℕ → List ℕ → List ℕ → Outcome (List ℕ)
master_from_pre_master_secret hashes version sha384 secret client_random server_random = do
  (prf, hash) ← prf_and_hash_for_version hashes version sha384
  prf (replicate 48 0) secret master_secret_label (client_random ++ server_random)

pub record ConnectionKeys : Type 0 where
  pub client_mac : List ℕ
  pub server_mac : List ℕ
  pub client_key : List ℕ
  pub server_key : List ℕ
  pub client_iv : List ℕ
  pub server_iv : List ℕ

-- Cutting the key material up.
unfoldable pub cut_keys : ℕ → ℕ → ℕ → List ℕ → Outcome ConnectionKeys
cut_keys mac_len key_len iv_len material = do
  client_mac ← slice 0 mac_len material []
  material1 ← slice_from mac_len material
  server_mac ← slice 0 mac_len material1 []
  material2 ← slice_from mac_len material1
  client_key ← slice 0 key_len material2 []
  material3 ← slice_from key_len material2
  server_key ← slice 0 key_len material3 []
  material4 ← slice_from key_len material3
  client_iv ← slice 0 iv_len material4 []
  material5 ← slice_from iv_len material4
  server_iv ← slice 0 iv_len material5 []
  ok (record {
    client_mac = client_mac;
    server_mac = server_mac;
    client_key = client_key;
    server_key = server_key;
    client_iv = client_iv;
    server_iv = server_iv;
  })

unfoldable pub keys_from_master_secret :
    Hashes → ℕ → Bool → List ℕ → List ℕ → List ℕ → ℕ → ℕ → ℕ → Outcome ConnectionKeys
keys_from_master_secret hashes version sha384 secret client_random server_random mac_len key_len
      iv_len =
    do
      (prf, hash) ← prf_and_hash_for_version hashes version sha384
      material ←
          prf (replicate (2 * mac_len + 2 * key_len + 2 * iv_len) 0) secret key_expansion_label
            (server_random ++ client_random)
      cut_keys mac_len key_len iv_len material

-- ===== src/Keys/Tests.antt =====
-- The pseudo-random functions at concrete inputs, with a hash that counts bytes.
use disguise.Common.{
  ℕ, ◌+◌, ◌≡◌, refl, List, [], ◌∷◌, Option, none, some, ok, ◌>>=◌, length, take, replicate, false,
  true, arith,
}
use disguise.Keys.{
  Hash, Hashes, Prf, HashId, id_sha256, id_sha384, ConnectionKeys, p_hash, prf_and_hash_for_version,
  key_expansion_label, client_finished_label, keys_from_master_secret,
}
use disguise.Keys.Expansion.{blocks, p_hash_lem}
use disguise.Keys.Material.{IsSized, AreSized, is_tls10, is_tls12}
use disguise.Keys.Cut.{joined, HasLengths, keys_from_master_secret_lem}
use disguise.Keys.Finished.{FinishedHash, message_sum, new_finished_hash, client_sum}
use disguise.Keys.Finished.Written.{write_all, joined_text, handshake_digest, finished_hash_lem}

abbrev counter : ℕ → Hash
counter n = record {
  digest = λ t. n ∷ length t ∷ [];
  hmac = λ key t. (n + length key) ∷ length t ∷ [];
  size = 2;
}

abbrev counters : Hashes
counters = record { md5 = counter 1; sha1 = counter 2; sha256 = counter 3; sha384 = counter 4 }

counter-IsSized : (n : ℕ) → IsSized (counter n)
counter-IsSized n = record { sized = λ key t. refl; positive = omega arith }

counters-AreSized : AreSized counters
counters-AreSized = record {
  md5 = counter-IsSized 1;
  sha1 = counter-IsSized 2;
  sha256 = counter-IsSized 3;
  sha384 = counter-IsSized 4;
}

abbrev linked : HashId → Option Hash
linked id_sha256 = some (counter 3)
linked id_sha384 = some (counter 4)
linked id = none

p_hash_lem_example :
    p_hash (counter 3) (replicate 5 0) (9 ∷ []) (8 ∷ [])
    ≡ ok (take (length {A = ℕ} (replicate 5 0)) (blocks ((counter 3).hmac (9 ∷ [])) (8 ∷ []) 0 3))
p_hash_lem_example =
    p_hash_lem (counter 3) (replicate 5 0) (9 ∷ []) (8 ∷ []) 3 (λ key t. refl) (omega arith)
      (omega arith)

keys_from_master_secret_lem_example :
    (prf : Prf) × (hash : HashId) × (k : ConnectionKeys) × (prf_and_hash_for_version counters 0x0301
        false
      ≡ ok (prf, hash))
    × (keys_from_master_secret counters 0x0301 false (1 ∷ 2 ∷ 3 ∷ []) (4 ∷ []) (5 ∷ []) 2 3 1
        ≡ ok k)
    × (prf (replicate 12 0) (1 ∷ 2 ∷ 3 ∷ []) key_expansion_label (5 ∷ 4 ∷ []) ≡ ok (joined k))
    × HasLengths 2 3 1 k
keys_from_master_secret_lem_example =
    keys_from_master_secret_lem counters 0x0301 false (1 ∷ 2 ∷ 3 ∷ []) (4 ∷ []) (5 ∷ []) 2 3 1
      counters-AreSized is_tls10

finished_hash_lem_example :
    (prf : Prf) × (hash : HashId) × (h : FinishedHash) × (verify : List ℕ)
    × (prf_and_hash_for_version counters 0x0303 true ≡ ok (prf, hash))
    × ((new_finished_hash counters linked 0x0303 true >>= λ begin.
          write_all ((1 ∷ []) ∷ (2 ∷ 3 ∷ []) ∷ []) begin)
        ≡ ok h)
    × (message_sum h
        ≡ ok (handshake_digest counters 0x0303 true (joined_text ((1 ∷ []) ∷ (2 ∷ 3 ∷ []) ∷ []))))
    × (client_sum h (7 ∷ []) ≡ ok verify)
    × (prf
          (replicate 12 0)
          (7 ∷ [])
          client_finished_label
          (handshake_digest counters 0x0303 true (joined_text ((1 ∷ []) ∷ (2 ∷ 3 ∷ []) ∷ [])))
        ≡ ok verify)
    × (length verify ≡ 12)
finished_hash_lem_example =
    finished_hash_lem counters linked 0x0303 true ((1 ∷ []) ∷ (2 ∷ 3 ∷ []) ∷ []) (7 ∷ [])
      counters-AreSized is_tls12 refl refl

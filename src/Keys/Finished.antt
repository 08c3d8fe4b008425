-- ===== src/Keys/Finished.antt =====
-- prf.go: `finishedHash`, the hash of the handshake's messages, and the exported keying material.
pub mod Written
use disguise.Common.{
  ℕ, ◌+◌, ◌*◌, ◌/◌, ◌%◌, Option, none, some, List, [], ◌∷◌, ◌++◌, Outcome, ok, err, tls_error,
  reserved_label, context_too_long, panic, ◌>>=◌, or_panic, length, replicate, ltb, leb,
  if◌then◌else◌, Bool, true, false, ◌||◌, ◌&&◌, not, ◌==◌,
}
use disguise.Common.Texts.{same_list}
use disguise.Keys.{
  Hash, Hashes, Prf, HashId, no_hash, id_md5_sha1, id_sha1, id_sha256, id_sha384, id_sha512,
  prf_and_hash_for_version, client_finished_label, server_finished_label, master_secret_label,
  key_expansion_label,
}

-- A `hash.Hash`: its algorithm, and the text that was written to it.
pub record HashState : Type 0 where
  pub algorithm : Hash
  pub text : List ℕ

unfoldable pub absorb : List ℕ → HashState → HashState
absorb msg h = record h { text = h.text ++ msg }

-- `Sum(nil)`.
unfoldable pub sum_of : HashState → List ℕ
sum_of h = h.algorithm.digest h.text

-- The MD5 hashes and the buffer are none where they are nil.
pub record FinishedHash : Type 0 where
  pub client : HashState
  pub server : HashState
  pub client_md5 : Option HashState
  pub server_md5 : Option HashState
  pub buffer : Option (List ℕ)
  pub version : ℕ
  pub prf : Prf

-- `append(h.buffer, msg...)` where the buffer is not nil.
unfoldable pub extended : List ℕ → Option (List ℕ) → Option (List ℕ)
extended msg none = none
extended msg (some text) = some (text ++ msg)

-- `Write`.
unfoldable pub write_message : List ℕ → FinishedHash → Outcome FinishedHash
write_message msg h =
    let both = record h {
      client = absorb msg h.client;
      server = absorb msg h.server;
      buffer = extended msg h.buffer;
    } in
    if ltb h.version 0x0303
    then (do
      client_md5 ← or_panic h.client_md5
      server_md5 ← or_panic h.server_md5
      ok (record both {
        client_md5 = some (absorb msg client_md5);
        server_md5 = some (absorb msg server_md5);
      }))
    else ok both

-- `Sum`.
unfoldable pub message_sum : FinishedHash → Outcome (List ℕ)
message_sum h =
    if leb 0x0303 h.version
    then ok (sum_of h.client)
    else (do md5 ← or_panic h.client_md5; ok (sum_of md5 ++ sum_of h.client))

-- `hash.New`, for the hashes that are linked in: `new_hash` is none for the others, where it panics.
module _ (hashes : Hashes) (new_hash : HashId → Option Hash) where
  -- `client` and `clientMD5`, or `server` and `serverMD5`.
  unfoldable pub start_hashes : HashId → Outcome (HashState × Option HashState)
  start_hashes no_hash = ok (
    record { algorithm = hashes.sha1; text = [] },
    some (record { algorithm = hashes.md5; text = [] }),
  )
  start_hashes id = do h ← or_panic (new_hash id); ok (record { algorithm = h; text = [] }, none)

  unfoldable pub new_finished_hash : ℕ → Bool → Outcome FinishedHash
  new_finished_hash version sha384 = do
    (prf, id) ← prf_and_hash_for_version hashes version sha384
    (h, md5) ← start_hashes id
    ok (record {
      client = h;
      server = h;
      client_md5 = md5;
      server_md5 = md5;
      buffer = if leb 0x0303 version then some [] else none;
      version = version;
      prf = prf;
    })

  -- `hashForClientCertificate`: the signature types are 225 to 228, and Ed25519 is 228.
  unfoldable pub hash_for_client_certificate : FinishedHash → ℕ → HashId → Outcome (List ℕ)
  hash_for_client_certificate h sig_type hash_alg =
      if sig_type == 228
      then or_panic h.buffer
      else if leb 0x0303 h.version
      then (do
        text ← or_panic h.buffer
        algorithm ← or_panic (new_hash hash_alg)
        ok (algorithm.digest text))
      else if sig_type == 227
      then ok (sum_of h.server)
      else message_sum h

unfoldable pub client_sum : FinishedHash → List ℕ → Outcome (List ℕ)
client_sum h master_secret = do
  seed ← message_sum h
  h.prf (replicate 12 0) master_secret client_finished_label seed

unfoldable pub server_sum : FinishedHash → List ℕ → Outcome (List ℕ)
server_sum h master_secret = do
  seed ← message_sum h
  h.prf (replicate 12 0) master_secret server_finished_label seed

unfoldable pub discard_handshake_buffer : FinishedHash → FinishedHash
discard_handshake_buffer h = record h { buffer = none }

-- The labels that may not be used.
unfoldable pub is_reserved : List ℕ → Bool
is_reserved label =
    same_list label client_finished_label
    || same_list label server_finished_label
    || same_list label master_secret_label
    || same_list label key_expansion_label

-- What a context adds to the seed.
unfoldable pub context_bytes : Option (List ℕ) → Outcome (List ℕ)
context_bytes none = ok []
context_bytes (some context) =
    if leb 65536 (length context)
    then err (tls_error context_too_long)
    else ok (length context / 256 % 256 ∷ length context % 256 ∷ context)

-- `ekmFromMasterSecret`, applied to the label, the context and the length.
unfoldable pub ekm_from_master_secret :
    Hashes → ℕ → Bool → List ℕ → List ℕ → List ℕ → List ℕ → Option (List ℕ) → ℕ → Outcome (List ℕ)
ekm_from_master_secret hashes version sha384 secret client_random server_random label context n =
    if is_reserved label then err (tls_error reserved_label) else (do
      tail ← context_bytes context
      (prf, hash) ← prf_and_hash_for_version hashes version sha384
      prf (replicate n 0) secret label ((client_random ++ server_random) ++ tail))

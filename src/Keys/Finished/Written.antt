-- ===== src/Keys/Finished/Written.antt =====
-- The hash of the handshake's messages after any messages were written.
use disguise.Common.{
  ℕ, ◌≤◌, ◌<◌, ◌≡◌, refl, sym, ap, ◌∙◌, Option, none, some, List, [], ◌∷◌, ◌++◌, Outcome, ok, ◌>>=◌,
  length, replicate, leb, le→ltb, lt→ltb, if◌then◌else◌, Bool, true, false, arith,
}
use disguise.Keys.{
  Hash, Hashes, Prf, HashId, no_hash, id_sha256, id_sha384, client_finished_label,
  prf_and_hash_for_version, prf10, prf12,
}
use disguise.Keys.Material.{
  AreSized, Fills, prf10-Fills, prf12-Fills, IsOld, is_tls10, is_tls11, is_tls12,
}
use disguise.Keys.Finished.{
  HashState, absorb, sum_of, FinishedHash, write_message, message_sum, start_hashes,
  new_finished_hash, client_sum, extended,
}
use mathlib.Core.List.{append_assoc, append-nil}

unfoldable pub write_all : List (List ℕ) → FinishedHash → Outcome FinishedHash
write_all [] h = ok h
write_all (msg ∷ msgs) h = write_message msg h >>= λ h'. write_all msgs h'

unfoldable pub joined_text : List (List ℕ) → List ℕ
joined_text [] = []
joined_text (msg ∷ msgs) = msg ++ joined_text msgs

abbrev absorb_any : List ℕ → Option HashState → Option HashState
absorb_any text none = none
absorb_any text (some h) = some (absorb text h)

-- `h` with a text more in each of its hashes and in the buffer.
abbrev after : List ℕ → FinishedHash → FinishedHash
after text h = record h {
  client = absorb text h.client;
  server = absorb text h.server;
  client_md5 = absorb_any text h.client_md5;
  server_md5 = absorb_any text h.server_md5;
  buffer = extended text h.buffer;
}

-- There are MD5 hashes exactly before TLS 1.2.
data IsWhole : FinishedHash → Type 0 where
  whole_old :
      {h : FinishedHash} (m n : HashState)
      → h.version < 0x0303
      → h.client_md5 ≡ some m
      → h.server_md5 ≡ some n
      → IsWhole h
  whole_tls12 :
      {h : FinishedHash}
      → 0x0303 ≤ h.version
      → h.client_md5 ≡ none
      → h.server_md5 ≡ none
      → IsWhole h

extended_nil : (m : Option (List ℕ)) → extended [] m ≡ m
unfolding extended
extended_nil none = refl
extended_nil (some text) = ap some (append-nil text)

after-IsWhole : (text : List ℕ) (h : FinishedHash) → IsWhole h → IsWhole (after text h)
after-IsWhole text h (whole_old m n old e f) =
    whole_old (absorb text m) (absorb text n) old (ap (absorb_any text) e) (ap (absorb_any text) f)
after-IsWhole text h (whole_tls12 new e f) =
    whole_tls12 new (ap (absorb_any text) e) (ap (absorb_any text) f)

write_message_lem :
    (msg : List ℕ) (h : FinishedHash) → IsWhole h → write_message msg h ≡ ok (after msg h)
unfolding write_message
write_message_lem msg h (whole_old m n old e f) = rw (lt→ltb h.version 0x0303 old, e, f) refl
write_message_lem msg h (whole_tls12 new e f) = rw (le→ltb h.version 0x0303 new, e, f) refl

absorb-absorb : (a b : List ℕ) (h : HashState) → absorb b (absorb a h) ≡ absorb (a ++ b) h
unfolding absorb
absorb-absorb a b h = ap (λ t. record h { text = t }) (append_assoc h.text a b)

absorb_any-absorb_any :
    (a b : List ℕ) (m : Option HashState) → absorb_any b (absorb_any a m) ≡ absorb_any (a ++ b) m
absorb_any-absorb_any a b none = refl
absorb_any-absorb_any a b (some h) = ap some (absorb-absorb a b h)

extended-extended :
    (a b : List ℕ) (m : Option (List ℕ)) → extended b (extended a m) ≡ extended (a ++ b) m
unfolding extended
extended-extended a b none = refl
extended-extended a b (some text) = ap some (append_assoc text a b)

after-after : (a b : List ℕ) (h : FinishedHash) → after b (after a h) ≡ after (a ++ b) h
after-after a b h =
    rw
      (
        absorb-absorb a b h.client,
        absorb-absorb a b h.server,
        absorb_any-absorb_any a b h.client_md5,
        absorb_any-absorb_any a b h.server_md5,
        extended-extended a b h.buffer,
      )
      refl

absorb_nil : (h : HashState) → absorb [] h ≡ h
unfolding absorb
absorb_nil h = ap (λ t. record h { text = t }) (append-nil h.text)

after_nil : (h : FinishedHash) → after [] h ≡ h
after_nil h =
    rw
      (
        absorb_nil h.client,
        absorb_nil h.server,
        any_nil h.client_md5,
        any_nil h.server_md5,
        extended_nil h.buffer,
      )
      refl
  where
    any_nil : (m : Option HashState) → absorb_any [] m ≡ m
    any_nil none = refl
    any_nil (some h) = ap some (absorb_nil h)

-- Writes one after the other are a write of the messages joined.
write_all_lem :
    (msgs : List (List ℕ)) (h : FinishedHash)
    → IsWhole h
    → write_all msgs h ≡ ok (after (joined_text msgs) h)
unfolding write_all joined_text
write_all_lem [] h w = ap ok (sym (after_nil h))
write_all_lem (msg ∷ msgs) h w = rw (write_message_lem msg h w) (
    write_all_lem msgs (after msg h) (after-IsWhole msg h w)
    ∙ ap ok (after-after msg (joined_text msgs) h))

-- The digest of the messages of a handshake: SHA-256 or SHA-384 in TLS 1.2, and MD5 with SHA-1 before.
abbrev pub handshake_digest : Hashes → ℕ → Bool → List ℕ → List ℕ
handshake_digest hashes version sha384 text =
    if leb 0x0303 version
    then (if sha384 then hashes.sha384.digest text else hashes.sha256.digest text)
    else hashes.md5.digest text ++ hashes.sha1.digest text

abbrev fresh : Hash → HashState
fresh a = record { algorithm = a; text = [] }

abbrev start : Hash → Option HashState → Option (List ℕ) → ℕ → Prf → FinishedHash
start a md5 buffer version prf = record {
  client = fresh a;
  server = fresh a;
  client_md5 = md5;
  server_md5 = md5;
  buffer = buffer;
  version = version;
  prf = prf;
}

-- The same from a start whose digest of the messages is known.
from_start :
    (begin : FinishedHash) (msgs : List (List ℕ)) (master_secret digest : List ℕ)
    → IsWhole begin
    → Fills begin.prf
    → message_sum (after (joined_text msgs) begin) ≡ ok digest
    → (h : FinishedHash) × (verify : List ℕ) × (write_all msgs begin ≡ ok h)
      × (message_sum h ≡ ok digest)
      × (client_sum h master_secret ≡ ok verify)
      × (begin.prf (replicate 12 0) master_secret client_finished_label digest ≡ ok verify)
      × (length verify ≡ 12)
unfolding client_sum
from_start begin msgs master_secret digest w fills sums =
    let (verify, made, whole) = fills (replicate 12 0) master_secret client_finished_label digest in
    (
      after (joined_text msgs) begin,
      verify,
      write_all_lem msgs begin w,
      sums,
      rw (client_sum, sums) made,
      made,
      whole,
    )

-- From a new hash of a version before TLS 1.3, any messages can be written. Then `Sum` gives the
-- digest of the messages one after the other, and the verify_data of a client's Finished is the 12
-- bytes that the version's pseudo-random function makes of it, under the label of the client.
pub finished_hash_lem :
    (hashes : Hashes) (new_hash : HashId → Option Hash) (version : ℕ) (sha384 : Bool)
    (msgs : List (List ℕ)) (master_secret : List ℕ)
    → AreSized hashes
    → IsOld version
    → new_hash id_sha256 ≡ some hashes.sha256
    → new_hash id_sha384 ≡ some hashes.sha384
    → (prf : Prf) × (hash : HashId) × (h : FinishedHash) × (verify : List ℕ)
      × (prf_and_hash_for_version hashes version sha384 ≡ ok (prf, hash))
      × ((new_finished_hash hashes new_hash version sha384 >>= λ begin. write_all msgs begin)
          ≡ ok h)
      × (message_sum h ≡ ok (handshake_digest hashes version sha384 (joined_text msgs)))
      × (client_sum h master_secret ≡ ok verify)
      × (prf
            (replicate 12 0)
            master_secret
            client_finished_label
            (handshake_digest hashes version sha384 (joined_text msgs))
          ≡ ok verify)
      × (length verify ≡ 12)
unfolding new_finished_hash start_hashes prf_and_hash_for_version message_sum sum_of absorb
finished_hash_lem hashes new_hash _ sha384 msgs master_secret sized is_tls10 known256 known384 =
    let fills = prf10-Fills hashes sized in
    let begin = start hashes.sha1 (some (fresh hashes.md5)) none 0x0301 (prf10 hashes) in
    let w = whole_old (fresh hashes.md5) (fresh hashes.md5) (omega arith) refl refl in
    let (h, verify, a, b, c, d, e) = from_start begin msgs master_secret _ w fills refl in
    (prf10 hashes, no_hash, h, verify, refl, a, b, c, d, e)
finished_hash_lem hashes new_hash _ sha384 msgs master_secret sized is_tls11 known256 known384 =
    let fills = prf10-Fills hashes sized in
    let begin = start hashes.sha1 (some (fresh hashes.md5)) none 0x0302 (prf10 hashes) in
    let w = whole_old (fresh hashes.md5) (fresh hashes.md5) (omega arith) refl refl in
    let (h, verify, a, b, c, d, e) = from_start begin msgs master_secret _ w fills refl in
    (prf10 hashes, no_hash, h, verify, refl, a, b, c, d, e)
finished_hash_lem hashes new_hash _ true msgs master_secret sized is_tls12 known256 known384 =
    let fills = prf12-Fills hashes.sha384 sized.sha384 in
    let begin = start hashes.sha384 none (some []) 0x0303 (prf12 hashes.sha384) in
    let w = whole_tls12 (omega arith) refl refl in
    let (h, verify, a, b, c, d, e) = from_start begin msgs master_secret _ w fills refl in
    (prf12 hashes.sha384, id_sha384, h, verify, refl, rw known384 a, b, c, d, e)
finished_hash_lem hashes new_hash _ false msgs master_secret sized is_tls12 known256 known384 =
    let fills = prf12-Fills hashes.sha256 sized.sha256 in
    let begin = start hashes.sha256 none (some []) 0x0303 (prf12 hashes.sha256) in
    let w = whole_tls12 (omega arith) refl refl in
    let (h, verify, a, b, c, d, e) = from_start begin msgs master_secret _ w fills refl in
    (prf12 hashes.sha256, id_sha256, h, verify, refl, rw known256 a, b, c, d, e)

-- ===== src/Keys/Cut.antt =====
-- The six keys that the key material is cut into.
use disguise.Common.{
  ℕ, ◌+◌, ◌-◌, ◌*◌, ◌≤◌, ◌≡◌, refl, ◌∙◌, Bool, List, [], ◌++◌, Outcome, ok, ◌>>=◌, length, take,
  take_all, drop, replicate, length-replicate, length-take, length-drop, take-append-drop, arith,
}
use disguise.Common.Bytes.{slice, slice_from}
use disguise.Keys.{
  Hashes, Prf, HashId, ConnectionKeys, prf_and_hash_for_version, master_secret_label,
  key_expansion_label, master_from_pre_master_secret, cut_keys, keys_from_master_secret,
}
use disguise.Keys.Material.{
  AreSized, IsOld, slice_front, slice_from_lem, prf_and_hash_for_version_lem,
}

-- The keys one after the other.
abbrev pub joined : ConnectionKeys → List ℕ
joined k =
    k.client_mac
    ++ (k.server_mac ++ (k.client_key ++ (k.server_key ++ (k.client_iv ++ k.server_iv))))

-- The keys have the lengths that the cipher suite asks for.
pub record HasLengths (mac_len key_len iv_len : ℕ) (k : ConnectionKeys) : Type 0 where
  pub client_mac : length k.client_mac ≡ mac_len
  pub server_mac : length k.server_mac ≡ mac_len
  pub client_key : length k.client_key ≡ key_len
  pub server_key : length k.server_key ≡ key_len
  pub client_iv : length k.client_iv ≡ iv_len
  pub server_iv : length k.server_iv ≡ iv_len

-- One key is taken off the material.
cut_off :
    {B : Type 0} (n : ℕ) (s : List ℕ) (next : List ℕ → List ℕ → Outcome B)
    → n ≤ length s
    → (slice 0 n s [] >>= λ key. slice_from n s >>= λ rest. next key rest)
      ≡ next (take n s) (drop n s)
cut_off n s next h = rw (slice_front n s h, slice_from_lem n s h) refl

cut_keys_lem :
    (mac_len key_len iv_len : ℕ) (s : List ℕ)
    → length s ≡ 2 * mac_len + 2 * key_len + 2 * iv_len
    → (k : ConnectionKeys) × (cut_keys mac_len key_len iv_len s ≡ ok k)
      × (joined k ≡ s)
      × HasLengths mac_len key_len iv_len k
unfolding cut_keys
cut_keys_lem mac_len key_len iv_len s h =
    let s1 = drop mac_len s in
    let s2 = drop mac_len s1 in
    let s3 = drop key_len s2 in
    let s4 = drop key_len s3 in
    let s5 = drop iv_len s4 in
    let l1 : length s1 ≡ length s - mac_len = length-drop mac_len s in
    let l2 : length s2 ≡ length s1 - mac_len = length-drop mac_len s1 in
    let l3 : length s3 ≡ length s2 - key_len = length-drop key_len s2 in
    let l4 : length s4 ≡ length s3 - key_len = length-drop key_len s3 in
    let l5 : length s5 ≡ length s4 - iv_len = length-drop iv_len s4 in
    (
      record {
        client_mac = take mac_len s;
        server_mac = take mac_len s1;
        client_key = take key_len s2;
        server_key = take key_len s3;
        client_iv = take iv_len s4;
        server_iv = take iv_len s5;
      },
      cut_off mac_len s (λ key rest. _) (omega (arith, h))
          ∙ cut_off mac_len s1 (λ key rest. _) (omega (arith, h, l1))
          ∙ cut_off key_len s2 (λ key rest. _) (omega (arith, h, l1, l2))
          ∙ cut_off key_len s3 (λ key rest. _) (omega (arith, h, l1, l2, l3))
          ∙ cut_off iv_len s4 (λ key rest. _) (omega (arith, h, l1, l2, l3, l4))
          ∙ rw (slice_front iv_len s5 (omega (arith, h, l1, l2, l3, l4, l5))) refl,
      rw
          (
            take_all iv_len s5 (omega (arith, h, l1, l2, l3, l4, l5)),
            take-append-drop iv_len s4,
            take-append-drop key_len s3,
            take-append-drop key_len s2,
            take-append-drop mac_len s1,
            take-append-drop mac_len s,
          )
          refl,
      record {
        client_mac = length-take mac_len s ∙ omega (arith, h);
        server_mac = length-take mac_len s1 ∙ omega (arith, h, l1);
        client_key = length-take key_len s2 ∙ omega (arith, h, l1, l2);
        server_key = length-take key_len s3 ∙ omega (arith, h, l1, l2, l3);
        client_iv = length-take iv_len s4 ∙ omega (arith, h, l1, l2, l3, l4);
        server_iv = length-take iv_len s5 ∙ omega (arith, h, l1, l2, l3, l4, l5);
      },
    )

-- Before TLS 1.3, the connection keys are the bytes that the pseudo-random function gives for the
-- master secret, the label of the key expansion and the server's random before the client's: one
-- key after the other, each of the length that was asked for, with no byte left over.
pub keys_from_master_secret_lem :
    (hashes : Hashes) (version : ℕ) (sha384 : Bool) (secret client_random server_random : List ℕ)
    (mac_len key_len iv_len : ℕ)
    → AreSized hashes
    → IsOld version
    → (prf : Prf) × (hash : HashId) × (k : ConnectionKeys) × (prf_and_hash_for_version hashes
          version sha384
        ≡ ok (prf, hash))
      × (keys_from_master_secret hashes version sha384 secret client_random server_random mac_len
            key_len iv_len
          ≡ ok k)
      × (prf
            (replicate (2 * mac_len + 2 * key_len + 2 * iv_len) 0)
            secret
            key_expansion_label
            (server_random ++ client_random)
          ≡ ok (joined k))
      × HasLengths mac_len key_len iv_len k
unfolding keys_from_master_secret
keys_from_master_secret_lem hashes version sha384 secret client_random server_random mac_len key_len
      iv_len h old =
    let n = 2 * mac_len + 2 * key_len + 2 * iv_len in
    let (prf, hash, chosen, fills) = prf_and_hash_for_version_lem hashes version sha384 h old in
    let (out, made, whole) =
      fills (replicate n 0) secret key_expansion_label (server_random ++ client_random) in
    let (k, cut, same, lengths) =
      cut_keys_lem mac_len key_len iv_len out (whole ∙ length-replicate n 0) in
    (prf, hash, k, chosen, rw (chosen, made) cut, rw same made, lengths)

-- The master secret has 48 bytes, from the client's random before the server's.
pub master_from_pre_master_secret_lem :
    (hashes : Hashes) (version : ℕ) (sha384 : Bool) (secret client_random server_random : List ℕ)
    → AreSized hashes
    → IsOld version
    → (out : List ℕ) × (master_from_pre_master_secret hashes version sha384 secret client_random
          server_random
        ≡ ok out)
      × (length out ≡ 48)
unfolding master_from_pre_master_secret
master_from_pre_master_secret_lem hashes version sha384 secret client_random server_random h old =
    let (prf, hash, chosen, fills) = prf_and_hash_for_version_lem hashes version sha384 h old in
    let (out, made, whole) =
      fills (replicate 48 0) secret master_secret_label (client_random ++ server_random) in
    (out, rw (chosen) made, whole)

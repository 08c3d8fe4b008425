-- ===== src/Record.antt =====
-- conn.go: one direction of the TLS record layer.
pub mod Change
pub mod Nonce
pub mod Padding
pub mod Protect
pub mod Sequence
pub mod Sizes
pub mod Toy
mod Tests
use disguise.Alert as Alert
use disguise.Common.Crypto.{Crypto}
use disguise.Common.{
  ℕ, zero, suc, ◌+◌, ◌-◌, ◌*◌, ◌/◌, ◌%◌, ◌≡◌, List, [], ◌∷◌, Bool, true, false, not, ◌||◌, ltb, leb,
  ◌==◌, if◌then◌else◌, Option, none, some, replicate, set, get_elem?, Outcome, ok, err, panic,
  ◌>>=◌, or_panic, Error, alert, network, local_error, remote_error, permanent,
}

abbrev pub max_plaintext : ℕ
max_plaintext = 16384

abbrev pub record_header_len : ℕ
record_header_len = 5

abbrev pub record_type_change_cipher_spec : ℕ
record_type_change_cipher_spec = 20

abbrev pub record_type_alert : ℕ
record_type_alert = 21

abbrev pub record_type_handshake : ℕ
record_type_handshake = 22

abbrev pub record_type_application_data : ℕ
record_type_application_data = 23

abbrev pub version_tls11 : ℕ
version_tls11 = 770

abbrev pub version_tls13 : ℕ
version_tls13 = 772

-- `hash.Hash`: the size and the sum of what was written.
pub record Mac : Type 0 where
  pub size : ℕ
  pub digest : List ℕ → List ℕ

abbrev pub mac_size : Option Mac → Option ℕ
mac_size none = none
mac_size (some m) = some m.size

-- The errors that are a `net.Error`.
abbrev pub is_net_error : Error → Bool
is_net_error (network temporary) = true
is_net_error (local_error code) = true
is_net_error (remote_error code) = true
is_net_error (permanent e) = true
is_net_error e = false

unfoldable pub round_up : ℕ → ℕ → ℕ
round_up a b = a + (b - a % b) % b

-- The loop of `incSeq`: `k` bytes are left to go through, the last first.
unfoldable pub inc_loop : ℕ → List ℕ → Outcome (List ℕ)
inc_loop zero seq = panic
inc_loop (suc i) seq = do
  b ← or_panic (get_elem? seq i)
  let b' = (b + 1) % 256
  let carried = inc_loop i (set seq i b')
  if b' == 0 then carried else ok (set seq i b')

module _ ⦃C : Crypto⦄ where
  -- `cipher.Stream`, `aead` and `cbcMode`.
  pub data Cipher : Type 0 where
    stream : C.Key → Cipher
    aead : C.Key → (explicit_nonce_len overhead : ℕ) → Cipher
    cbc : C.Key → (block_size : ℕ) → Cipher

  -- `halfConn`; `none` is nil.
  pub record HalfConn : Type 0 where
    pub failed : Option Error
    pub version : ℕ
    pub cipher : Option Cipher
    pub mac : Option Mac
    pub seq : List ℕ
    pub next_cipher : Option Cipher
    pub next_mac : Option Mac
    pub traffic_secret : List ℕ

  unfoldable pub set_error_locked : HalfConn → Error → HalfConn
  set_error_locked hc e = record hc { failed = some (if is_net_error e then permanent e else e) }

  unfoldable pub prepare_cipher_spec : HalfConn → ℕ → Option Cipher → Option Mac → HalfConn
  prepare_cipher_spec hc version cipher mac = record hc {
    version = version;
    next_cipher = cipher;
    next_mac = mac;
  }

  abbrev pub is_none : Option Cipher → Bool
  is_none none = true
  is_none (some c) = false

  unfoldable pub change_cipher_spec : HalfConn → Outcome HalfConn
  change_cipher_spec hc =
      if is_none hc.next_cipher || hc.version == version_tls13
      then err (alert Alert.internal_error)
      else ok (record hc {
        cipher = hc.next_cipher;
        mac = hc.next_mac;
        next_cipher = none;
        next_mac = none;
        seq = replicate 8 0;
      })

  -- `setTrafficSecret`, given the cipher that the suite makes of the secret's key and IV.
  unfoldable pub set_traffic_secret : HalfConn → (List ℕ → Cipher) → List ℕ → HalfConn
  set_traffic_secret hc suite secret = record hc {
    traffic_secret = secret;
    cipher = some (suite secret);
    seq = replicate 8 0;
  }

  unfoldable pub inc_seq : HalfConn → Outcome HalfConn
  inc_seq hc = do seq ← inc_loop 8 hc.seq; ok (record hc { seq = seq })

  -- The switch of `explicitNonceLen`, on the version and the cipher.
  unfoldable pub nonce_len : ℕ → Option Cipher → ℕ
  nonce_len version none = 0
  nonce_len version (some (stream key)) = 0
  nonce_len version (some (aead key nonce overhead)) = nonce
  nonce_len version (some (cbc key block)) = if leb version_tls11 version then block else 0

  unfoldable pub explicit_nonce_len : HalfConn → ℕ
  unfolding nonce_len
  explicit_nonce_len hc = nonce_len hc.version hc.cipher

-- ===== src/Record/Change.antt =====
-- `prepareCipherSpec` and then `changeCipherSpec`.
use disguise.Common.Crypto.{Crypto}
use disguise.Common.{ℕ, ◌≡◌, refl, ◌==◌, if◌then◌else◌, Option, some, none, ok, err, alert}
use disguise.Common.Bytes.{be}
use disguise.Alert as Alert
use disguise.Record.{Cipher, HalfConn, Mac, version_tls13, prepare_cipher_spec, change_cipher_spec}

module _ ⦃C : Crypto⦄ where
  -- The half-connection with a new cipher and MAC in force.
  abbrev pub changed : HalfConn → ℕ → Cipher → Option Mac → HalfConn
  changed hc version cipher mac = record hc {
    version = version;
    cipher = some cipher;
    mac = mac;
    seq = be 8 0;
    next_cipher = none;
    next_mac = none;
  }

  -- After `prepareCipherSpec` with a cipher, `changeCipherSpec` puts the cipher and the MAC in
  -- force and starts the sequence number at 0, or returns an error where the version is TLS 1.3. A
  -- second `changeCipherSpec` returns an error.
  pub change_cipher_spec-prepare_cipher_spec :
      (hc : HalfConn) (version : ℕ) (cipher : Cipher) (mac : Option Mac)
      → (change_cipher_spec (prepare_cipher_spec hc version (some cipher) mac) ≡ (
          if version == version_tls13
          then err (alert Alert.internal_error)
          else ok (changed hc version cipher mac)))
        × (change_cipher_spec (changed hc version cipher mac) ≡ err (alert Alert.internal_error))
  unfolding change_cipher_spec prepare_cipher_spec be
  change_cipher_spec-prepare_cipher_spec hc version cipher mac = (refl, refl)

-- ===== src/Negotiate/SuiteIds.antt =====
-- cipher_suites.go: the identifiers of the cipher suites.
use disguise.Common.{ℕ}

abbrev pub tls_rsa_with_rc4_128_sha : ℕ
tls_rsa_with_rc4_128_sha = 0x0005

abbrev pub tls_rsa_with_3des_ede_cbc_sha : ℕ
tls_rsa_with_3des_ede_cbc_sha = 0x000a

abbrev pub tls_rsa_with_aes_128_cbc_sha : ℕ
tls_rsa_with_aes_128_cbc_sha = 0x002f

abbrev pub tls_rsa_with_aes_256_cbc_sha : ℕ
tls_rsa_with_aes_256_cbc_sha = 0x0035

abbrev pub tls_rsa_with_aes_128_cbc_sha256 : ℕ
tls_rsa_with_aes_128_cbc_sha256 = 0x003c

abbrev pub tls_rsa_with_aes_128_gcm_sha256 : ℕ
tls_rsa_with_aes_128_gcm_sha256 = 0x009c

abbrev pub tls_rsa_with_aes_256_gcm_sha384 : ℕ
tls_rsa_with_aes_256_gcm_sha384 = 0x009d

abbrev pub tls_ecdhe_ecdsa_with_rc4_128_sha : ℕ
tls_ecdhe_ecdsa_with_rc4_128_sha = 0xc007

abbrev pub tls_ecdhe_ecdsa_with_aes_128_cbc_sha : ℕ
tls_ecdhe_ecdsa_with_aes_128_cbc_sha = 0xc009

abbrev pub tls_ecdhe_ecdsa_with_aes_256_cbc_sha : ℕ
tls_ecdhe_ecdsa_with_aes_256_cbc_sha = 0xc00a

abbrev pub tls_ecdhe_rsa_with_rc4_128_sha : ℕ
tls_ecdhe_rsa_with_rc4_128_sha = 0xc011

abbrev pub tls_ecdhe_rsa_with_3des_ede_cbc_sha : ℕ
tls_ecdhe_rsa_with_3des_ede_cbc_sha = 0xc012

abbrev pub tls_ecdhe_rsa_with_aes_128_cbc_sha : ℕ
tls_ecdhe_rsa_with_aes_128_cbc_sha = 0xc013

abbrev pub tls_ecdhe_rsa_with_aes_256_cbc_sha : ℕ
tls_ecdhe_rsa_with_aes_256_cbc_sha = 0xc014

abbrev pub tls_ecdhe_ecdsa_with_aes_128_cbc_sha256 : ℕ
tls_ecdhe_ecdsa_with_aes_128_cbc_sha256 = 0xc023

abbrev pub tls_ecdhe_rsa_with_aes_128_cbc_sha256 : ℕ
tls_ecdhe_rsa_with_aes_128_cbc_sha256 = 0xc027

abbrev pub tls_ecdhe_rsa_with_aes_128_gcm_sha256 : ℕ
tls_ecdhe_rsa_with_aes_128_gcm_sha256 = 0xc02f

abbrev pub tls_ecdhe_ecdsa_with_aes_128_gcm_sha256 : ℕ
tls_ecdhe_ecdsa_with_aes_128_gcm_sha256 = 0xc02b

abbrev pub tls_ecdhe_rsa_with_aes_256_gcm_sha384 : ℕ
tls_ecdhe_rsa_with_aes_256_gcm_sha384 = 0xc030

abbrev pub tls_ecdhe_ecdsa_with_aes_256_gcm_sha384 : ℕ
tls_ecdhe_ecdsa_with_aes_256_gcm_sha384 = 0xc02c

abbrev pub tls_ecdhe_rsa_with_chacha20_poly1305_sha256 : ℕ
tls_ecdhe_rsa_with_chacha20_poly1305_sha256 = 0xcca8

abbrev pub tls_ecdhe_ecdsa_with_chacha20_poly1305_sha256 : ℕ
tls_ecdhe_ecdsa_with_chacha20_poly1305_sha256 = 0xcca9

abbrev pub tls_aes_128_gcm_sha256 : ℕ
tls_aes_128_gcm_sha256 = 0x1301

abbrev pub tls_aes_256_gcm_sha384 : ℕ
tls_aes_256_gcm_sha384 = 0x1302

abbrev pub tls_chacha20_poly1305_sha256 : ℕ
tls_chacha20_poly1305_sha256 = 0x1303

abbrev pub tls_fallback_scsv : ℕ
tls_fallback_scsv = 0x5600

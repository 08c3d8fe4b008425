-- ===== src/Alert.antt =====
-- alert.go: the alerts that the modelled code sends or tests.
use Prim.Native.Nat.{ℕ}

abbrev pub level_warning : ℕ
level_warning = 1

abbrev pub level_error : ℕ
level_error = 2

abbrev pub close_notify : ℕ
close_notify = 0

abbrev pub unexpected_message : ℕ
unexpected_message = 10

abbrev pub bad_record_mac : ℕ
bad_record_mac = 20

abbrev pub record_overflow : ℕ
record_overflow = 22

abbrev pub decode_error : ℕ
decode_error = 50

abbrev pub protocol_version : ℕ
protocol_version = 70

abbrev pub internal_error : ℕ
internal_error = 80

abbrev pub no_renegotiation : ℕ
no_renegotiation = 100

abbrev pub handshake_failure : ℕ
handshake_failure = 40

abbrev pub inappropriate_fallback : ℕ
inappropriate_fallback = 86

abbrev pub illegal_parameter : ℕ
illegal_parameter = 47

abbrev pub unsupported_extension : ℕ
unsupported_extension = 110

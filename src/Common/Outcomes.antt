-- ===== src/Common/Outcomes.antt =====
-- How a Go call ends: it returns, returns an error, panics, waits forever for a mutex that its own
-- goroutine holds, or (which no Go call does) uses up the fuel of its model.
use Prim.Native.Nat.{ℕ}
use mathlib.Core.Path.{◌≡◌, refl}
use mathlib.Core.Bool.{Bool, true, false}
use mathlib.Core.Option.{Option, none, some}

-- What the errors of the handshake's files say, less the values that they print.
pub data Reason : Type 0 where
  reserved_label context_too_long keys_unavailable ticket_cipher : Reason
  unsupported_signature unsupported_public_key unsupported_certificate no_mutual_signature : Reason
  no_mutual_suite bad_fallback unconfigured_suite : Reason
  unsupported_version downgrade_attempt unsupported_compression : Reason
  renegotiation_not_empty bad_renegotiation wrong_session_version wrong_session_suite : Reason
  unsupported_protocols unrequested_protocol unadvertised_protocol : Reason
  too_long_message : Reason

-- The errors of the disguise packages, where `failed_decode` and its like wrap by `%w`, and those of conn.go.
pub data Error : Type 0 where
  cell_too_short eof unexpected_eof length_mismatch out_of_order : Error
  no_outbound_traffic empty_observations : Error
  failed_encode failed_decode failed_reassemble : Error → Error
  -- An alert, and the `net.OpError` of one that was sent or received.
  alert local_error remote_error : ℕ → Error
  -- A `net.Error` of the network, with its `Temporary()`.
  network : Bool → Error
  permanent : Error → Error
  bad_record_header pending_data too_many_ignored random_failed : Error
  net_closed early_close_write : Error
  -- `fmt.Errorf` around the error of the alert that `Close` sends.
  failed_close_notify : Error → Error
  tls_error : Reason → Error

pub data Outcome {ℓ} (A : Type ℓ) : Type ℓ where
  ok : A → Outcome A
  err : Error → Outcome A
  panic blocked out_of_fuel : Outcome A

infixl 5 ◌>>=◌ ◌>>◌
abbrev pub ◌>>=◌ {ℓ κ} : {A : Type ℓ} {B : Type κ} → Outcome A → (A → Outcome B) → Outcome B
ok x >>= next = next x
err x >>= next = err x
panic >>= next = panic
blocked >>= next = blocked
out_of_fuel >>= next = out_of_fuel

abbrev pub ◌>>◌ {ℓ} : {B : Type ℓ} → Outcome (Unit {0}) → Outcome B → Outcome B
m >> k = m >>= λ _. k

-- A run-time check of Go: an index, a slice bound, a nil map.
abbrev pub check : Bool → Outcome (Unit {0})
check true = ok tt
check false = panic

abbrev pub or_panic {ℓ} : {A : Type ℓ} → Option A → Outcome A
or_panic (some a) = ok a
or_panic none = panic

-- What follows a call that returns, and what follows one that returns an error.
abbrev pub either {ℓ κ} :
    {A : Type ℓ} {B : Type κ} → Outcome A → (A → Outcome B) → (Error → Outcome B) → Outcome B
either (ok x) next failed = next x
either (err e) next failed = failed e
either panic next failed = panic
either blocked next failed = blocked
either out_of_fuel next failed = out_of_fuel

-- `if err != nil { ... }`, and what follows it.
abbrev pub on_error {ℓ} : {A : Type ℓ} → Option Error → (Error → Outcome A) → Outcome A → Outcome A
on_error none failed next = next
on_error (some e) failed next = failed e

-- Inversion of a chain that returns.
pub >>=-eq-ok {ℓ κ} :
    {A : Type ℓ} {B : Type κ} (first : Outcome A) (next : A → Outcome B) {last : B}
    → (first >>= next) ≡ ok last
    → (x : A) × (first ≡ ok x) × (next x ≡ ok last)
>>=-eq-ok (ok x) next e = (x, refl, e)
>>=-eq-ok (err x) next e = cc
>>=-eq-ok panic next e = cc
>>=-eq-ok blocked next e = cc
>>=-eq-ok out_of_fuel next e = cc

pub ok-injective {ℓ} : {A : Type ℓ} {a b : A} → ok a ≡ ok b → a ≡ b
ok-injective e = cc

-- ===== src/Negotiate.antt =====
-- What client and server choose together: the protocol version, the curves, the application protocol, the
-- cipher suite and the signature scheme.
pub mod Versions
pub mod Agreed
pub mod Alpn
pub mod SuiteIds
pub mod Suites
pub mod Schemes
pub mod Curves
pub mod Client
mod Tests
use disguise.Common.{ℕ, Option, none, some, List}

-- The fields of `Config` that the choices read. The cipher suites are none where the slice is nil.
pub record Config : Type 0 where
  pub min_version : ℕ
  pub max_version : ℕ
  pub cipher_suites : Option (List ℕ)
  pub curve_preferences : List ℕ

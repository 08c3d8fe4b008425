-- ===== src/Negotiate/Curves.antt =====
-- The curves of a configuration (common.go), and `supportsECDHE` of handshake_server.go.
use disguise.Common.{ℕ, Bool, true, false, ◌&&◌, Option, none, some, List, [], ◌∷◌, if◌then◌else◌}
use disguise.Common.Choice.{contains}
use disguise.Negotiate.{Config}

-- `defaultCurvePreferences`: X25519, P-256, P-384, P-521.
abbrev pub default_curve_preferences : List ℕ
default_curve_preferences = 29 ∷ 23 ∷ 24 ∷ 25 ∷ []

unfoldable pub curve_preferences : Option Config → List ℕ
curve_preferences none = default_curve_preferences
curve_preferences (some c) = elim c.curve_preferences [
  | [] ↦ default_curve_preferences
  | x ∷ xs ↦ x ∷ xs
]

unfoldable pub supports_curve : Option Config → ℕ → Bool
supports_curve c curve = contains curve (curve_preferences c)

-- The first loop of `supportsECDHE`.
unfoldable pub any_curve : Option Config → List ℕ → Bool
any_curve c [] = false
any_curve c (curve ∷ curves) =
    let rest = any_curve c curves in if supports_curve c curve then true else rest

-- `supportsECDHE`; the uncompressed point format is 0.
unfoldable pub supports_ecdhe : Option Config → List ℕ → List ℕ → Bool
supports_ecdhe c curves [] = any_curve c curves && true
supports_ecdhe c curves (p ∷ points) = any_curve c curves && contains 0 (p ∷ points)

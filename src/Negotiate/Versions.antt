-- ===== src/Negotiate/Versions.antt =====
-- common.go: the versions that a configuration supports, and the choice of one of them.
use disguise.Common.{
  ℕ, Bool, true, false, not, ◌&&◌, ◌||◌, Option, none, some, List, [], ◌∷◌, ltb, ◌==◌,
  if◌then◌else◌,
}
use disguise.Common.Choice.{contains, first_where}
use disguise.Negotiate.{Config}

-- `supportedVersions`, the variable.
abbrev pub all_versions : List ℕ
all_versions = 0x0304 ∷ 0x0303 ∷ 0x0302 ∷ 0x0301 ∷ []

-- Whether the loop of `Config.supportedVersions` comes to `append`. `debug` is `debugEnableTLS10`, and the
-- configuration is none for nil.
abbrev pub is_kept : Bool → Option Config → Bool → ℕ → Bool
is_kept debug none is_client v = debug || not is_client || not (ltb v 0x0303)
is_kept debug (some c) is_client v =
    if c.min_version == 0 && not debug && is_client && ltb v 0x0303
    then false
    else if not (c.min_version == 0) && ltb v c.min_version
    then false
    else if not (c.max_version == 0) && ltb c.max_version v
    then false
    else true

abbrev pub keep_where : (ℕ → Bool) → List ℕ → List ℕ
keep_where p [] = []
keep_where p (v ∷ vs) = let rest = keep_where p vs in if p v then v ∷ rest else rest

unfoldable pub supported_versions : Bool → Option Config → Bool → List ℕ
supported_versions debug c is_client = keep_where (is_kept debug c is_client) all_versions

unfoldable pub max_supported_version : Bool → Option Config → Bool → ℕ
max_supported_version debug c is_client = elim (supported_versions debug c is_client) [
  | [] ↦ 0
  | v ∷ vs ↦ v
]

unfoldable pub supported_versions_from_max : ℕ → List ℕ
supported_versions_from_max max_version = keep_where (λ v. not (ltb max_version v)) all_versions

-- The version and `ok`. The inner loop returns the supported version that is the peer's.
unfoldable pub mutual_version : Bool → Option Config → Bool → List ℕ → ℕ × Bool
mutual_version debug c is_client peer_versions =
    elim (first_where (λ v. contains v (supported_versions debug c is_client)) peer_versions) [
      | some v ↦ (v, true)
      | none ↦ (0, false)
    ]

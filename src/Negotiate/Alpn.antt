-- ===== src/Negotiate/Alpn.antt =====
-- The application protocol: `negotiateALPN` of handshake_server.go and `checkALPN` of handshake_client.go.
pub mod Chosen
use disguise.Common.{
  ℕ, Bool, true, false, ◌&&◌, ◌||◌, Option, none, some, List, [], ◌∷◌, Outcome, ok, err, tls_error,
  unsupported_protocols, unrequested_protocol, unadvertised_protocol, Error, if◌then◌else◌,
}
use disguise.Common.Texts.{same_list, has_text}

-- "h2" and "http/1.1".
abbrev pub h2 : List ℕ
h2 = 104 ∷ 50 ∷ []

abbrev pub http11 : List ℕ
http11 = 104 ∷ 116 ∷ 116 ∷ 112 ∷ 47 ∷ 49 ∷ 46 ∷ 49 ∷ []

-- The inner loop: whether it returns `s`, and `http11fallback` after it.
unfoldable pub match_client : List ℕ → List (List ℕ) → Bool → Bool × Bool
match_client s [] fallback = (false, fallback)
match_client s (c ∷ cs) fallback =
    let rest =
      match_client s cs (if same_list s h2 && same_list c http11 then true else fallback) in
    if same_list s c then (true, fallback) else rest

unfoldable pub alpn_loop : List (List ℕ) → List (List ℕ) → Bool → Outcome (List ℕ)
alpn_loop [] client fallback = if fallback then ok [] else err (tls_error unsupported_protocols)
alpn_loop (s ∷ server) client fallback =
    let (found, fallback') = match_client s client fallback in
    let rest = alpn_loop server client fallback' in if found then ok s else rest

-- `negotiateALPN`.
unfoldable pub negotiate_alpn : List (List ℕ) → List (List ℕ) → Outcome (List ℕ)
negotiate_alpn [] client = ok []
negotiate_alpn server [] = ok []
negotiate_alpn server client = alpn_loop server client false

-- `checkALPN`, with its error.
unfoldable pub check_alpn : List (List ℕ) → List ℕ → Option Error
check_alpn client [] = none
check_alpn [] server = some (tls_error unrequested_protocol)
check_alpn client server =
    if has_text server client then none else some (tls_error unadvertised_protocol)

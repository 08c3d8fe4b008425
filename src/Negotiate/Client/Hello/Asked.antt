-- ===== src/Negotiate/Client/Hello/Asked.antt =====
-- `checkALPN` on a hello: the protocol that the server names was offered.
use disguise.Common.{
  ℕ, ◌≡◌, ◌≢◌, refl, sym, ◌∙◌, ◌⊎◌, inl, inr, Bool-cases, true, false, none, some, List, [], ◌∷◌,
  Error, tls_error, unadvertised_protocol,
}
use disguise.Common.Texts.{has_text}
use disguise.Negotiate.Alpn.{check_alpn}
use disguise.Negotiate.Client.{ServerHello}
use disguise.Negotiate.Client.Hello.{ClientHello}

-- The server names no protocol, or one that the client offered.
abbrev pub IsAsked : ClientHello → ServerHello → Type 0
IsAsked hello server =
    (server.alpn_protocol ≡ []) ⊎ (has_text server.alpn_protocol hello.alpn_protocols ≡ true)

abbrev pub IsUnasked : ClientHello → ServerHello → Type 0
IsUnasked hello server =
    (server.alpn_protocol ≢ []) × (has_text server.alpn_protocol hello.alpn_protocols ≡ false)

alpn-cases :
    (client : List (List ℕ)) (server : List ℕ)
    → ((check_alpn client server ≡ none) × ((server ≡ []) ⊎ (has_text server client ≡ true)))
      ⊎ (((e : Error) × (check_alpn client server ≡ some e))
          × (server ≢ [])
          × (has_text server client ≡ false))
unfolding check_alpn has_text
alpn-cases client [] = inl (refl, inl refl)
alpn-cases [] (x ∷ p) = inr ((_, refl), cons-nil, refl)
  where
    cons-nil : (x ∷ p) ≢ []
    cons-nil e = cc
alpn-cases (c ∷ cs) (x ∷ p) = elim (Bool-cases (has_text (x ∷ p) (c ∷ cs))) [
  | inl there ↦ inl (rw (check_alpn, there) refl, inr there)
  | inr gone ↦ inr ((tls_error unadvertised_protocol, rw (check_alpn, gone) refl), cons-nil, gone)
]
  where
    cons-nil : (x ∷ p) ≢ []
    cons-nil e = cc

none-some : {e : Error} → none ≡ some e → ⊥
none-some e = cc

pub check_alpn-IsAsked :
    (hello : ClientHello) (server : ServerHello)
    → check_alpn hello.alpn_protocols server.alpn_protocol ≡ none
    → IsAsked hello server
check_alpn-IsAsked hello server h = elim (alpn-cases hello.alpn_protocols server.alpn_protocol) [
  | inl (_, asked) ↦ asked
  | inr ((e, bad), _, _) ↦ absurd (none-some (sym h ∙ bad))
]

pub check_alpn-IsUnasked :
    (hello : ClientHello) (server : ServerHello) (e : Error)
    → check_alpn hello.alpn_protocols server.alpn_protocol ≡ some e
    → IsUnasked hello server
check_alpn-IsUnasked hello server e h =
    elim (alpn-cases hello.alpn_protocols server.alpn_protocol) [
      | inl (fine, _) ↦ absurd (none-some (sym fine ∙ h))
      | inr (_, named, unasked) ↦ (named, unasked)
    ]

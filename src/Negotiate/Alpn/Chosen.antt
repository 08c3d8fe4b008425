-- ===== src/Negotiate/Alpn/Chosen.antt =====
-- What the server chooses as the application protocol, and that the client takes it.
use disguise.Common.{
  ℕ, ◌≡◌, refl, sym, ap, ◌∙◌, Bool, true, false, ◌&&◌, ◌||◌, inl, inr, Bool-cases, Option-cases,
  none, some, List, [], ◌∷◌, Outcome, ok, ok-injective, err, tls_error, unsupported_protocols,
  if◌then◌else◌, arith,
}
use disguise.Common.Texts.{same_list, same_list_comm, has_text, first_text, first_text-passes}
use disguise.Negotiate.Alpn.{h2, http11, match_client, alpn_loop, negotiate_alpn, check_alpn}

match_client-found :
    (s : List ℕ) (client : List (List ℕ)) (fallback : Bool)
    → (match_client s client fallback).0 ≡ has_text s client
unfolding match_client has_text
match_client-found s [] fallback = refl
match_client-found s (c ∷ cs) fallback = ground (
  arith,
  same_list_comm s c,
  match_client-found s cs (if same_list s h2 && same_list c http11 then true else fallback),
)

match_client-fallback :
    (s : List ℕ) (client : List (List ℕ)) (fallback : Bool)
    → has_text s client ≡ false
    → (match_client s client fallback).1 ≡ (fallback || (same_list s h2 && has_text http11 client))
unfolding match_client has_text
match_client-fallback s [] fallback h = ground arith
match_client-fallback s (c ∷ cs) fallback h = ground (
  arith,
  same_list_comm s c,
  match_client-fallback s cs (if same_list s h2 && same_list c http11 then true else fallback),
)

-- The first of the server's protocols that the client names; else none, if the server names h2 and the
-- client http/1.1; else an error.
unfoldable pub chosen : Bool → List (List ℕ) → List (List ℕ) → Outcome (List ℕ)
chosen fallback server client = elim (first_text (λ s. has_text s client) server) [
  | some s ↦ ok s
  | none ↦
      if fallback || (has_text h2 server && has_text http11 client)
      then ok []
      else err (tls_error unsupported_protocols)
]

-- A protocol that the client does not name changes the choice only through the fallback.
chosen-cons :
    (s : List ℕ) (server client : List (List ℕ)) (fallback : Bool)
    → has_text s client ≡ false
    → chosen (fallback || (same_list s h2 && has_text http11 client)) server client
      ≡ chosen fallback (s ∷ server) client
unfolding chosen first_text has_text
chosen-cons s server client fallback h =
    elim (Option-cases (first_text (λ t. has_text t client) server)) [
      | inl gone ↦
          rw (chosen, h, gone)
            (ap (λ b. if b then ok [] else err (tls_error unsupported_protocols))
              (bools fallback (same_list s h2) (has_text http11 client) (has_text h2 server)))
      | inr (t, found) ↦ rw (chosen, h, found) refl
    ]
  where
    bools : (f x y z : Bool) → ((f || (x && y)) || (z && y)) ≡ (f || ((if x then true else z) && y))
    bools true x y z = refl
    bools false true true z = refl
    bools false true false true = refl
    bools false true false false = refl
    bools false false y z = refl

alpn_loop_lem :
    (server client : List (List ℕ)) (fallback : Bool)
    → alpn_loop server client fallback ≡ chosen fallback server client
unfolding alpn_loop chosen first_text has_text
alpn_loop_lem [] client fallback = ground arith
alpn_loop_lem (s ∷ server) client fallback = elim (Bool-cases (has_text s client)) [
  | inl named ↦ rw (match_client-found s client fallback, chosen, named) refl
  | inr other ↦
      rw
        (match_client-found s client fallback, match_client-fallback s client fallback other, other)
        (alpn_loop_lem server client (fallback || (same_list s h2 && has_text http11 client))
          ∙ chosen-cons s server client fallback other)
]

-- Where both sides name protocols, negotiateALPN answers the first of the server's protocols that
-- the client names too; where there is none, no protocol if the server names h2 and the client
-- http/1.1, and an error otherwise.
pub negotiate_alpn_lem :
    (s c : List ℕ) (server client : List (List ℕ))
    → negotiate_alpn (s ∷ server) (c ∷ client) ≡ chosen false (s ∷ server) (c ∷ client)
unfolding negotiate_alpn
negotiate_alpn_lem s c server client = alpn_loop_lem (s ∷ server) (c ∷ client) false

chosen-accepted :
    (server client : List (List ℕ)) (p : List ℕ)
    → chosen false server client ≡ ok p
    → check_alpn client p ≡ none
unfolding check_alpn has_text chosen
chosen-accepted server client [] h = refl
chosen-accepted server client (x ∷ p) h =
    elim (Option-cases (first_text (λ t. has_text t client) server)) [
      | inl gone ↦ absurd (not_empty _ (rw (chosen, gone) at h))
      | inr (t, found) ↦
          let same : ok t ≡ ok (x ∷ p) = rw (chosen, found) at h in
          named client (
            ap (λ u. has_text u client) (sym (ok-injective same))
            ∙ first_text-passes (λ u. has_text u client) server found)
    ]
  where
    not_empty :
        (b : Bool) → (if b then ok [] else err (tls_error unsupported_protocols)) ≡ ok (x ∷ p) → ⊥
    not_empty true e = cc
    not_empty false e = cc

    named :
        (client : List (List ℕ)) → has_text (x ∷ p) client ≡ true → check_alpn client (x ∷ p) ≡ none
    named [] n = absurd cc
    named (c ∷ client) n = rw n refl

-- What the server negotiates, the client's check accepts.
pub check_alpn-negotiate_alpn :
    (server client : List (List ℕ)) (p : List ℕ)
    → negotiate_alpn server client ≡ ok p
    → check_alpn client p ≡ none
unfolding negotiate_alpn check_alpn
check_alpn-negotiate_alpn [] client p h = ap (check_alpn client) (sym (ok-injective h))
check_alpn-negotiate_alpn (s ∷ server) [] p h = ap (check_alpn []) (sym (ok-injective h))
check_alpn-negotiate_alpn (s ∷ server) (c ∷ client) p h =
    chosen-accepted (s ∷ server) (c ∷ client) p
      (sym (alpn_loop_lem (s ∷ server) (c ∷ client) false) ∙ h)

-- ===== src/Negotiate/Client/Downgrade.antt =====
-- The protection against a downgrade of the version: the canary of the server in its random, and the client's
-- look at it.
use disguise.Alert as Alert
use disguise.Common.{
  ℕ, ◌≤◌, ◌<◌, ◌≡◌, ◌≢◌, refl, sym, ap, ◌∙◌, ◌⊎◌, inl, inr, Bool-cases, Option-cases, Bool, true,
  false, ◌&&◌, ◌||◌, Option, none, some, List, [], ◌∷◌, ◌++◌, length, length-append, drop,
  drop_append_left, copy, copy_from, copy_full, copy_from_lem, copy_front, replicate, All, leb, ltb,
  ◌==◌, Reason, downgrade_attempt, unsupported_version, if◌then◌else◌, ok, on_error, Gives,
  gives_ok, >>=-Gives, arith,
}
use disguise.Common.Bytes.{slice_from}
use disguise.Common.Choice.{contains, first_where, All-contains}
use disguise.Common.Crypto.{Crypto}
use disguise.Common.Texts.{same_list}
use disguise.Conn.{Conn, Reply}
use disguise.Conn.Output.Ends.{send_alert-Gives}
use disguise.Negotiate.{Config}
use disguise.Negotiate.Agreed.{Descends, supported_versions-Descends, All-keep_where}
use disguise.Negotiate.Client.{
  downgrade_canary_tls12, downgrade_canary_tls11, server_random, ServerHello, peer_version,
  is_downgrade, refuse_hello, with_version, pick_tls_version, check_downgrade, agree_version,
}
use disguise.Negotiate.Versions.{
  all_versions, is_kept, keep_where, supported_versions, max_supported_version, mutual_version,
}

-- The first version is the highest.
highest :
    (vs : List ℕ) (w : ℕ) → Descends vs → contains w vs ≡ true → w ≤ elim vs [ [] ↦ 0 | v ∷ us ↦ v ]
unfolding contains
highest [] w d h = absurd cc
highest (v ∷ vs) w d h = elim (Bool-cases (v == w)) [
  | inl here ↦ ground (arith, here)
  | inr other ↦ omega (arith, All-contains (λ u. u < v) vs w d.0 (rw other at h))
]

contains-max_supported_version :
    (debug : Bool) (c : Option Config) (is_client : Bool) (w : ℕ)
    → contains w (supported_versions debug c is_client) ≡ true
    → w ≤ max_supported_version debug c is_client
unfolding max_supported_version
contains-max_supported_version debug c is_client w h =
    highest (supported_versions debug c is_client) w (supported_versions-Descends debug c is_client)
      h

-- The highest version is one of four, or there is none.
abbrev IsVersion : ℕ → Type 0
IsVersion v = (v ≡ 0x0304) ⊎ (v ≡ 0x0303) ⊎ (v ≤ 0x0302)

max_supported_version-IsVersion :
    (debug : Bool) (c : Option Config) (is_client : Bool)
    → IsVersion (max_supported_version debug c is_client)
unfolding max_supported_version supported_versions
max_supported_version-IsVersion debug c is_client =
    go (keep_where (is_kept debug c is_client) all_versions) (
      All-keep_where IsVersion (is_kept debug c is_client) all_versions
        (inl refl, (inr (inl refl), (inr (inr (omega arith)), (inr (inr (omega arith)), tt)))))
  where
    go : (vs : List ℕ) → All IsVersion vs → IsVersion (elim vs [ [] ↦ 0 | v ∷ us ↦ v ])
    go [] h = inr (inr (omega arith))
    go (v ∷ vs) h = h.0

-- The canary stands at the end of the random.
abbrev canary_for : ℕ → List ℕ
canary_for v = if v == 0x0303 then downgrade_canary_tls12 else downgrade_canary_tls11

written :
    (canary r : List ℕ)
    → length canary ≡ 8
    → length r ≡ 24
    → copy (copy_from 24 (replicate 32 0) canary) r ≡ r ++ canary
written canary r h k =
    ap (λ l. copy l r)
      (copy_from_lem 24 (replicate 32 0) canary (omega arith)
        ∙ ap (λ l. replicate 24 0 ++ l) (copy_full (replicate 8 0) canary (sym h)))
    ∙ copy_front (replicate 24 0 ++ canary) r (omega (arith, k))
    ∙ rw k refl

canary-length : (v : ℕ) → length (canary_for v) ≡ 8
canary-length v = elim (Bool-cases (v == 0x0303)) [
  | inl last ↦ rw last refl
  | inr older ↦ rw older refl
]

server_random-canary :
    (testing : Bool) (max_vers v : ℕ) (draw : ℕ → Option (List ℕ)) (random : List ℕ)
    → 0x0303 ≤ max_vers
    → v < max_vers
    → ((n : ℕ) (r : List ℕ) → draw n ≡ some r → length r ≡ n)
    → server_random testing max_vers v draw ≡ some random
    → (24 ≤ length random) × (drop 24 random ≡ canary_for v)
unfolding server_random
server_random-canary testing max_vers v draw random high low sized h =
    elim (Option-cases (draw 24)) [
      | inl gone ↦ absurd (none-some (sym (rw (server_random, stamps, gone) refl) ∙ h))
      | inr (r, drawn) ↦
          let size = sized 24 r drawn in
          let whole : r ++ canary_for v ≡ random =
            sym (written (canary_for v) r (canary-length v) size)
            ∙ some-injective (sym (rw (server_random, stamps, drawn) refl) ∙ h) in
          (
            omega (arith, ap length whole, length-append r (canary_for v), size),
            ap (drop 24) (sym whole) ∙ drop_append_left 24 r (canary_for v) (sym size),
          )
    ]
  where
    stamps : (leb 0x0303 max_vers && ltb v max_vers || testing) ≡ true
    stamps = ground (arith, high, low)

    none-some : none ≡ some random → ⊥
    none-some e = cc

    some-injective : {r : List ℕ} → some r ≡ some random → r ≡ random
    some-injective e = cc

-- The client takes any of the two canaries for a downgrade where it could do better.
is_downgrade-canary :
    (max_vers v w : ℕ)
    → IsVersion max_vers
    → w ≤ max_vers
    → 0x0303 ≤ w
    → v < w
    → is_downgrade max_vers v (canary_for v) ≡ true
unfolding is_downgrade same_list
is_downgrade-canary max_vers v w known top new low = elim (Bool-cases (v == 0x0303)) [
  | inl last ↦ rw last (ground (arith, known, top, new, low, last))
  | inr older ↦ rw older (ground (arith, known, top, new, low, older))
]

-- The choice from one version.
mutual_version-single :
    (debug : Bool) (config : Config) (v : ℕ)
    → contains v (supported_versions debug (some config) true) ≡ true
    → mutual_version debug (some config) true (v ∷ []) ≡ (v, true)
unfolding mutual_version first_where
mutual_version-single debug config v h = rw (mutual_version, first_where, h) refl

mutual_version-unknown :
    (debug : Bool) (config : Config) (v : ℕ)
    → contains v (supported_versions debug (some config) true) ≡ false
    → mutual_version debug (some config) true (v ∷ []) ≡ (0, false)
unfolding mutual_version first_where
mutual_version-unknown debug config v h = rw (mutual_version, first_where, h) refl

module _ ⦃C : Crypto⦄ where
  -- An error.
  abbrev pub IsRefusal : Reply → Type 0
  IsRefusal (c, none) = ⊥
  IsRefusal (c, some e) = Unit {0}

  refuse_hello-IsRefusal :
      (code : ℕ) (reason : Reason) (c : Conn)
      → code ≢ 0
      → Gives IsRefusal (refuse_hello code reason c)
  unfolding refuse_hello
  refuse_hello-IsRefusal code reason c other =
      >>=-Gives _ _ (send_alert-Gives c code other) (λ reply p. gives_ok tt)

  check_downgrade-IsRefusal :
      (debug : Bool) (config : Config) (hello : ServerHello) (c : Conn)
      → 24 ≤ length hello.random
      → is_downgrade
          (max_supported_version debug (some config) true)
          c.sender.vers
          (drop 24 hello.random)
        ≡ true
      → Gives IsRefusal (check_downgrade debug config hello c)
  unfolding check_downgrade slice_from
  check_downgrade-IsRefusal debug config hello c long found =
      rw (check_downgrade, slice_from, leb_true long, found)
        (refuse_hello-IsRefusal 47 downgrade_attempt c (omega arith))
    where
      leb_true : 24 ≤ length hello.random → leb 24 (length hello.random) ≡ true
      leb_true h = ground (arith, h)

  -- If the server, whatever it was told that the client offers, answers a version that is lower
  -- than a version, TLS 1.2 or later, that both support, then the client, to whom this version
  -- comes with the server's random, refuses it, unless its alert panics or waits. The random
  -- source gives as many bytes as it is asked for.
  pub agree_version_lem :
      (debug debug' testing : Bool) (client server : Config) (v w : ℕ) (draw : ℕ → Option (List ℕ))
      (hello : ServerHello) (c : Conn)
      → contains w (supported_versions debug (some client) true) ≡ true
      → contains w (supported_versions debug' (some server) false) ≡ true
      → v < w
      → 0x0303 ≤ w
      → ((n : ℕ) (r : List ℕ) → draw n ≡ some r → length r ≡ n)
      → server_random testing (max_supported_version debug' (some server) false) v draw
        ≡ some hello.random
      → peer_version hello ≡ v
      → Gives IsRefusal (agree_version debug client hello c)
  unfolding agree_version pick_tls_version
  agree_version_lem debug debug' testing client server v w draw hello c ours theirs low new sized
        sent answered =
      elim (Bool-cases (contains v (supported_versions debug (some client) true))) [
        | inl known ↦
            rw (agree_version, picked known)
              (check_downgrade-IsRefusal debug client hello (with_version v c) canary.0 (
                ap (is_downgrade (max_supported_version debug (some client) true) v) canary.1
                ∙ is_downgrade-canary (max_supported_version debug (some client) true) v w
                    (max_supported_version-IsVersion debug (some client) true) our_top new low))
        | inr unknown ↦
            rw (agree_version, refused unknown)
              (>>=-Gives _ _ (refuse_hello-IsRefusal 70 unsupported_version c (omega arith))
                (λ reply p. still reply p))
      ]
    where
      our_top : w ≤ max_supported_version debug (some client) true
      our_top = contains-max_supported_version debug (some client) true w ours

      their_top : w ≤ max_supported_version debug' (some server) false
      their_top = contains-max_supported_version debug' (some server) false w theirs

      canary : (24 ≤ length hello.random) × (drop 24 hello.random ≡ canary_for v)
      canary =
          server_random-canary testing (max_supported_version debug' (some server) false) v draw
            hello.random (omega (arith, their_top, new)) (omega (arith, their_top, low)) sized sent

      picked :
          contains v (supported_versions debug (some client) true) ≡ true
          → pick_tls_version debug client hello c ≡ ok (with_version v c, none)
      picked known =
          rw (pick_tls_version, answered, mutual_version-single debug client v known) refl

      refused :
          contains v (supported_versions debug (some client) true) ≡ false
          → pick_tls_version debug client hello c
            ≡ refuse_hello Alert.protocol_version unsupported_version c
      refused unknown =
          rw (pick_tls_version, answered, mutual_version-unknown debug client v unknown) refl

      still :
          (reply : Reply)
          → IsRefusal reply
          → Gives IsRefusal (
              on_error reply.1
                (λ e. ok (reply.0, some e))
                (check_downgrade debug client hello reply.0))
      still (c', none) p = absurd p
      still (c', some e) p = gives_ok tt

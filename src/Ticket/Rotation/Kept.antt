-- ===== src/Ticket/Rotation/Kept.antt =====
-- What a rotation keeps of the ticket keys, and the read lock that a configuration without tickets keeps.
use disguise.Common.{
  ℕ, suc, ◌-◌, ◌<◌, ◌≤◌, ◌≡◌, ◌⊎◌, refl, inl, inr, Bool-cases, Bool, true, false, not, ◌&&◌, Option,
  none, some, List, [], ◌∷◌, ◌++◌, ok, length, copy, blocked, ltb, lt→ltb, ◌==◌, if◌then◌else◌,
  arith,
}
use disguise.Common.Texts.{same_list}
use disguise.Ticket.{TicketKey, TicketCrypto, ticket_key_from_bytes, encrypt_ticket, decrypt_ticket}
use disguise.Ticket.Sealed.{IsSound}
use disguise.Ticket.Opened.{decrypt_ticket-encrypt_ticket}
use disguise.Ticket.Rotation.{
  TicketConfig, ticket_key_lifetime, deprecated_session_ticket_key, is_zero, is_deprecated,
  read_lock, write_legacy, init_legacy, unexpired, is_fresh, rotate, chosen_keys, own_ticket_keys,
  client_ticket_keys, ticket_keys, set_session_ticket_keys,
}

-- A configuration that rotates its keys: tickets are enabled, it was given no keys, and no one reads it.
abbrev pub automatic : List ℕ → List TicketKey → TicketConfig
automatic key keys = record {
  session_tickets_disabled = false;
  session_ticket_key = key;
  session_ticket_keys = [];
  auto_session_ticket_keys = keys;
  readers = 0;
}

-- The `SessionTicketKey` was marked by an earlier call.
abbrev pub is_marked : List ℕ → Bool
is_marked key = not (is_zero key) && is_deprecated key

-- The `SessionTicketKey` before and after a call: a new configuration has 32 zeros there, which are replaced
-- by a draw that is marked.
pub data IsMarking (draw : List ℕ) : List ℕ → List ℕ → Type 0 where
  marked_before : {key : List ℕ} → is_marked key ≡ true → IsMarking draw key key
  now_marked :
      {key : List ℕ}
      → is_zero key ≡ true
      → IsMarking draw key (copy draw deprecated_session_ticket_key)

-- The second list has those keys of the first, in their order, that are not a week old: 604,800 seconds.
pub data AreYoung (now : ℕ) : List TicketKey → List TicketKey → Type 0 where
  over : AreYoung now [] []
  kept :
      {k : TicketKey} {ks young : List TicketKey}
      → now - k.created < 604800000000000
      → AreYoung now ks young
      → AreYoung now (k ∷ ks) (k ∷ young)
  left_out :
      {k : TicketKey} {ks young : List TicketKey}
      → 604800000000000 ≤ now - k.created
      → AreYoung now ks young
      → AreYoung now (k ∷ ks) young

-- The keys before and after a call. They stay while the first is not a day old, 86,400 seconds; else a new
-- key comes before those that are not a week old.
pub data IsRotation (now : ℕ) (new_key : TicketKey) : List TicketKey → List TicketKey → Type 0 where
  still_fresh :
      {k : TicketKey} {ks : List TicketKey}
      → now - k.created < 86400000000000
      → IsRotation now new_key (k ∷ ks) (k ∷ ks)
  none_before : IsRotation now new_key [] (new_key ∷ [])
  turned :
      {k : TicketKey} {ks young : List TicketKey}
      → 86400000000000 ≤ now - k.created
      → AreYoung now (k ∷ ks) young
      → IsRotation now new_key (k ∷ ks) (new_key ∷ young)

-- The keys after a rotation.
abbrev rotated : TicketCrypto → ℕ → List ℕ → List TicketKey → List TicketKey
rotated C now draw keys =
    if is_fresh now keys then keys else ticket_key_from_bytes C now draw ∷ unexpired now keys

unexpired-AreYoung : (now : ℕ) (keys : List TicketKey) → AreYoung now keys (unexpired now keys)
unfolding unexpired
unexpired-AreYoung now [] = over
unexpired-AreYoung now (k ∷ ks) = elim (Bool-cases (ltb (now - k.created) ticket_key_lifetime)) [
  | inl young ↦ rw young (kept (ground (arith, young)) (unexpired-AreYoung now ks))
  | inr old ↦ rw old (left_out (ground (arith, old)) (unexpired-AreYoung now ks))
]

rotated-IsRotation :
    (C : TicketCrypto) (now : ℕ) (draw : List ℕ) (keys : List TicketKey)
    → IsRotation now (ticket_key_from_bytes C now draw) keys (rotated C now draw keys)
unfolding is_fresh unexpired
rotated-IsRotation C now draw [] = none_before
rotated-IsRotation C now draw (k ∷ ks) = elim (Bool-cases (ltb (now - k.created) 86400000000000)) [
  | inl young ↦ rw young (still_fresh (ground (arith, young)))
  | inr old ↦ rw old (turned (ground (arith, old)) (unexpired-AreYoung now (k ∷ ks)))
]

-- The marked key.
abbrev marked : List ℕ → List ℕ → List ℕ
marked draw key = if is_zero key then copy draw deprecated_session_ticket_key else key

marked-IsMarking :
    (draw key : List ℕ)
    → (is_marked key ≡ true) ⊎ (is_zero key ≡ true)
    → IsMarking draw key (marked draw key)
marked-IsMarking draw key h = elim (Bool-cases (is_zero key)) [
  | inl z ↦ rw z (now_marked z)
  | inr nz ↦ rw nz (marked_before (ground (arith, h, nz)))
]

init_legacy_lem :
    (C : TicketCrypto) (now : ℕ) (draw key : List ℕ) (keys : List TicketKey)
    → (is_marked key ≡ true) ⊎ (is_zero key ≡ true)
    → init_legacy C now (some draw) (read_lock (automatic key keys))
      ≡ ok (read_lock (automatic (marked draw key) keys))
unfolding init_legacy write_legacy
init_legacy_lem C now draw key keys h = elim (Bool-cases (is_zero key)) [
  | inl z ↦ rw z refl
  | inr nz ↦ let d : is_deprecated key ≡ true = ground (arith, h, nz) in rw (nz, d) refl
]

ticket_keys-rotated :
    (C : TicketCrypto) (now : ℕ) (draw key new_draw : List ℕ) (draw0 : Option (List ℕ))
    (keys : List TicketKey)
    → (is_marked key ≡ true) ⊎ (is_zero key ≡ true)
    → ticket_keys C now draw0 (some draw) (some new_draw) none (automatic key keys)
      ≡ ok (
        none,
        automatic (marked draw key) (rotated C now new_draw keys),
        rotated C now new_draw keys,
      )
unfolding ticket_keys own_ticket_keys chosen_keys rotate
ticket_keys-rotated C now draw key new_draw draw0 keys h = elim (Bool-cases (is_fresh now keys)) [
  | inl young ↦ rw (init_legacy_lem C now draw key keys h, young) refl
  | inr stale ↦ rw (init_legacy_lem C now draw key keys h, stale) refl
]

-- With draws at hand, ticketKeys of a configuration that rotates its keys, and whose
-- `SessionTicketKey` is all zero or was marked before, returns the keys and keeps them: those
-- there were while the first of them is younger than 86,400 seconds, and otherwise a new one, made
-- at the time of the call, before those that are younger than 604,800 seconds, in their order. A
-- `SessionTicketKey` that was zero becomes a marked draw; no lock stays behind.
pub ticket_keys_lem :
    (C : TicketCrypto) (now : ℕ) (draw key new_draw : List ℕ) (draw0 : Option (List ℕ))
    (keys : List TicketKey)
    → (is_marked key ≡ true) ⊎ (is_zero key ≡ true)
    → (key' : List ℕ) × (keys' : List TicketKey) × IsMarking draw key key'
      × IsRotation now (ticket_key_from_bytes C now new_draw) keys keys'
      × ((ticket_key_from_bytes C now new_draw).created ≡ now)
      × (ticket_keys C now draw0 (some draw) (some new_draw) none (automatic key keys)
          ≡ ok (none, automatic key' keys', keys'))
unfolding ticket_key_from_bytes
ticket_keys_lem C now draw key new_draw draw0 keys h = (
  marked draw key,
  rotated C now new_draw keys,
  marked-IsMarking draw key h,
  rotated-IsRotation C now new_draw keys,
  refl,
  ticket_keys-rotated C now draw key new_draw draw0 keys h,
)

-- A key that is younger than a week, with what stands before and after it, is still there after a
-- rotation.
pub unexpired_kept :
    (now : ℕ) (before rest : List TicketKey) (key : TicketKey)
    → now - key.created < ticket_key_lifetime
    → unexpired now (before ++ (key ∷ rest)) ≡ unexpired now before ++ (key ∷ unexpired now rest)
unfolding unexpired
unexpired_kept now [] rest key h = rw (lt→ltb _ _ h) refl
unexpired_kept now (k ∷ before) rest key h =
    elim (Bool-cases (ltb (now - k.created) ticket_key_lifetime)) [
      | inl young ↦ rw (young, unexpired_kept now before rest key h) refl
      | inr old ↦ rw (old, unexpired_kept now before rest key h) refl
    ]

-- ticketKeys with a configuration for the client whose tickets are disabled returns no keys, and
-- keeps its read lock: SetSessionTicketKeys of that configuration waits for ever.
pub ticket_keys_disabled :
    (C : TicketCrypto) (now later : ℕ) (draw0 draw1 draw2 : Option (List ℕ)) (d c : TicketConfig)
    (key : List ℕ) (new_keys : List (List ℕ))
    → d.session_tickets_disabled ≡ true
    → (d' : TicketConfig) × (ticket_keys C now draw0 draw1 draw2 (some d) c ≡ ok (some d', c, []))
      × (set_session_ticket_keys C later (key ∷ new_keys) d' ≡ blocked)
unfolding ticket_keys client_ticket_keys set_session_ticket_keys
ticket_keys_disabled C now later draw0 draw1 draw2 d c key new_keys h =
    (read_lock d, rw h refl, rw (held d.readers) refl)
  where
    held : (n : ℕ) → (suc n == 0) ≡ false
    held n = ground arith

-- A ticket that was encrypted with the first key, which is not a week old, is read back with the
-- keys that a later call of ticketKeys returns, for a configuration that rotates its keys and
-- whose `SessionTicketKey` is all zero or was marked before, where the new key has another name.
-- Its key is called old exactly where it is a day old or older. Of AES and HMAC it is assumed that
-- the one undoes itself and the other has 32 bytes.
pub decrypt_ticket-rotated :
    (C : TicketCrypto) (now : ℕ) (draw legacy new_draw : List ℕ) (draw0 : Option (List ℕ))
    (key : TicketKey) (rest : List TicketKey) (iv state : List ℕ)
    → IsSound C key
    → length iv ≡ 16
    → now - key.created < 604800000000000
    → same_list key.key_name (ticket_key_from_bytes C now new_draw).key_name ≡ false
    → (is_marked legacy ≡ true) ⊎ (is_zero legacy ≡ true)
    → (t : List ℕ) × (c' : TicketConfig) × (keys' : List TicketKey) × (encrypt_ticket C
          (key ∷ rest)
          (some iv)
          state
        ≡ ok t)
      × (ticket_keys C now draw0 (some draw) (some new_draw) none (automatic legacy (key ∷ rest))
          ≡ ok (none, c', keys'))
      × (decrypt_ticket C keys' t ≡ (some state, not (ltb (now - key.created) 86400000000000)))
unfolding unexpired is_fresh
decrypt_ticket-rotated C now draw legacy new_draw draw0 key rest iv state sound i young differ h =
    let returned = ticket_keys-rotated C now draw legacy new_draw draw0 (key ∷ rest) h in
    let new_key = ticket_key_from_bytes C now new_draw in
    elim (Bool-cases (ltb (now - key.created) 86400000000000)) [
      | inl fresh ↦
          let (t, sealed, opened) =
            decrypt_ticket-encrypt_ticket C key rest [] rest iv state sound i tt in
          (t, _, _, sealed, returned, rw fresh opened)
      | inr stale ↦
          let (t, sealed, opened) =
            decrypt_ticket-encrypt_ticket C key rest (new_key ∷ []) (unexpired now rest) iv state
              sound i (differ, tt) in
          (t, _, _, sealed, returned, rw (stale, unexpired_kept now [] rest key young) opened)
    ]

-- ===== src/Ticket/Rotation.antt =====
-- common.go: the ticket keys of a configuration, and their rotation. Times are in nanoseconds.
pub mod Kept
use disguise.Common.{
  ℕ, zero, suc, ◌+◌, ◌-◌, ◌*◌, Bool, true, false, not, ◌&&◌, ◌||◌, Option, none, some, List, [],
  ◌∷◌, ◌++◌, Outcome, ok, err, panic, blocked, ◌>>=◌, ◌>>◌, or_panic, length, take, drop, copy, map,
  ltb, leb, ◌==◌, if◌then◌else◌, replicate,
}
use disguise.Common.Texts.{same_list}
use disguise.Ticket.{TicketKey, TicketCrypto, ticket_key_from_bytes}

-- A week and a day.
abbrev pub ticket_key_lifetime : ℕ
ticket_key_lifetime = 604800000000000

abbrev pub ticket_key_rotation : ℕ
ticket_key_rotation = 86400000000000

-- The fields of `Config` that the keys depend on, and the read locks that are held on its mutex.
pub record TicketConfig : Type 0 where
  pub session_tickets_disabled : Bool
  pub session_ticket_key : List ℕ
  pub session_ticket_keys : List TicketKey
  pub auto_session_ticket_keys : List TicketKey
  pub readers : ℕ

-- "DEPRECATED".
abbrev pub deprecated_session_ticket_key : List ℕ
deprecated_session_ticket_key = 68 ∷ 69 ∷ 80 ∷ 82 ∷ 69 ∷ 67 ∷ 65 ∷ 84 ∷ 69 ∷ 68 ∷ []

-- `bytes.HasPrefix`, and the comparison with 32 zeros.
abbrev pub is_deprecated : List ℕ → Bool
is_deprecated key = same_list (take 10 key) deprecated_session_ticket_key

abbrev pub is_zero : List ℕ → Bool
is_zero key = same_list key (replicate 32 0)

abbrev pub is_empty : List TicketKey → Bool
is_empty [] = true
is_empty (k ∷ ks) = false

-- `mutex.RLock`, `mutex.RUnlock`, and `mutex.Lock`, which waits for every reader.
abbrev pub read_lock : TicketConfig → TicketConfig
read_lock c = record c { readers = suc c.readers }

abbrev pub read_unlock : TicketConfig → TicketConfig
read_unlock c = record c { readers = c.readers - 1 }

abbrev pub exclusive : TicketConfig → Outcome (Unit {0})
exclusive c = if c.readers == 0 then ok tt else blocked

-- The keys that are not older than the lifetime. `Sub` of a time before the key's is negative, and so
-- below the lifetime, as 0 is.
unfoldable pub unexpired : ℕ → List TicketKey → List TicketKey
unexpired now [] = []
unexpired now (k ∷ ks) =
    let rest = unexpired now ks in
    if ltb (now - k.created) ticket_key_lifetime then k ∷ rest else rest

-- Whether the first key is fresh.
unfoldable pub is_fresh : ℕ → List TicketKey → Bool
is_fresh now [] = false
is_fresh now (k ∷ ks) = ltb (now - k.created) ticket_key_rotation

module _ (C : TicketCrypto) where
  -- `initLegacySessionTicketKeyRLocked`, with the draw of the random source, at the time `now`. What is done
  -- under the exclusive lock is `write_legacy`.
  unfoldable pub write_legacy : ℕ → Option (List ℕ) → TicketConfig → Outcome TicketConfig
  write_legacy now draw c =
      if is_zero c.session_ticket_key
      then (do
        key ← or_panic draw
        ok (record c { session_ticket_key = copy key deprecated_session_ticket_key }))
      else if not (is_deprecated c.session_ticket_key) && is_empty c.session_ticket_keys
      then ok
          (record c { session_ticket_keys = ticket_key_from_bytes C now c.session_ticket_key ∷ [] })
      else ok c

  unfoldable pub init_legacy : ℕ → Option (List ℕ) → TicketConfig → Outcome TicketConfig
  init_legacy now draw c =
      if not (is_zero c.session_ticket_key)
        && (is_deprecated c.session_ticket_key || not (is_empty c.session_ticket_keys))
      then ok c
      else (do
        exclusive (read_unlock c)
        c' ← write_legacy now draw (read_unlock c)
        ok (read_lock c'))

  -- The keys that rotate by themselves, under a read lock.
  unfoldable pub rotate :
      ℕ → Option (List ℕ) → TicketConfig → Outcome (TicketConfig × List TicketKey)
  rotate now draw c =
      if is_fresh now c.auto_session_ticket_keys then ok (c, c.auto_session_ticket_keys) else (do
        exclusive (read_unlock c)
        new_key ← or_panic draw
        let valid = ticket_key_from_bytes C now new_key ∷ unexpired now c.auto_session_ticket_keys
        ok (read_lock (record (read_unlock c) { auto_session_ticket_keys = valid }), valid))

  unfoldable pub chosen_keys :
      ℕ → Option (List ℕ) → TicketConfig → Outcome (TicketConfig × List TicketKey)
  chosen_keys now draw c =
      if is_empty c.session_ticket_keys then rotate now draw c else ok (c, c.session_ticket_keys)

  -- The part of `ticketKeys` that is about `c`, with a draw for each of the places that may need one.
  unfoldable pub own_ticket_keys :
      ℕ → Option (List ℕ) → Option (List ℕ) → TicketConfig → Outcome (TicketConfig × List TicketKey)
  own_ticket_keys now draw1 draw2 c = if c.session_tickets_disabled then ok (c, []) else (do
    c1 ← init_legacy now draw1 (read_lock c)
    (c2, keys) ← chosen_keys now draw2 c1
    ok (read_unlock c2, keys))

  -- The configuration for the client, and its keys if it has any. Where its tickets are disabled the
  -- function returns with the read lock held.
  unfoldable pub client_ticket_keys :
      ℕ → Option (List ℕ) → TicketConfig → Outcome (TicketConfig × Option (List TicketKey))
  client_ticket_keys now draw d =
      if d.session_tickets_disabled then ok (read_lock d, some []) else (do
        d' ← init_legacy now draw (read_lock d)
        ok (
          read_unlock d',
          (if is_empty d'.session_ticket_keys then none else some d'.session_ticket_keys),
        ))

  -- `ticketKeys`: the two configurations after it, and the keys.
  unfoldable pub ticket_keys :
      ℕ
      → Option (List ℕ)
      → Option (List ℕ)
      → Option (List ℕ)
      → Option TicketConfig
      → TicketConfig
      → Outcome (Option TicketConfig × TicketConfig × List TicketKey)
  ticket_keys now draw0 draw1 draw2 none c = do
    (c', keys) ← own_ticket_keys now draw1 draw2 c
    ok (none, c', keys)
  ticket_keys now draw0 draw1 draw2 (some d) c = do
    (d', found) ← client_ticket_keys now draw0 d
    elim found [
      | some keys ↦ ok (some d', c, keys)
      | none ↦ do (c', keys) ← own_ticket_keys now draw1 draw2 c; ok (some d', c', keys)
    ]

  -- `SetSessionTicketKeys`.
  unfoldable pub set_session_ticket_keys : ℕ → List (List ℕ) → TicketConfig → Outcome TicketConfig
  set_session_ticket_keys now [] c = panic
  set_session_ticket_keys now (k ∷ ks) c = do
    exclusive c
    ok (record c { session_ticket_keys = map (ticket_key_from_bytes C now) (k ∷ ks) })

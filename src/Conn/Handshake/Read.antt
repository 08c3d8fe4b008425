-- ===== src/Conn/Handshake/Read.antt =====
-- `readHandshake` ends, and reads a message that has arrived.
use disguise.Common.{
  ℕ, zero, suc, ◌+◌, ◌≤◌, ◌<◌, ◌≡◌, ◌≢◌, ◌⊎◌, inl, inr, ap, List, length, length-append, take, drop,
  Bool-cases, Option-cases, ==_iff, false, Option, none, some, ltb, le→ltb, ◌==◌, if◌then◌else◌, ok,
  on_error, out_of_fuel, Gives, gives_ok, >>=-Gives, if-Gives, Gives-map, Gives-ends, Always, arith,
}
use disguise.Common.Crypto.{Crypto}
use disguise.Conn.{Conn, Reply, set_in_error}
use disguise.Conn.Input.{read_record, read_record_or_ccs, read_rounds, receive}
use disguise.Conn.Input.Advance.{IsAnswer}
use disguise.Conn.Input.Rounds.{read_record_or_ccs-IsAnswer}
use disguise.Conn.Output.Ends.{send_alert-Gives}
use disguise.Conn.Handshake.{
  MessageReply, read_hand, refuse_message, take_message, read_message, read_handshake,
}
use disguise.Messages.{Handshake, unmarshal, u24_at}

module _ ⦃C : Crypto⦄ where
  -- An error, or handshake data that have grown, or application data that are there to read.
  abbrev HasProgress : Conn → Reply → Type 0
  HasProgress c0 (c, some e) = Unit {0}
  HasProgress c0 (c, none) =
      (length c0.input ≡ 0)
      × ((length c0.hand < length c.hand)
          ⊎ ((length c.hand ≡ length c0.hand) × (1 ≤ length c.input)))

  from_answer :
      (c : Conn) (reply : Reply) → length c.input ≡ 0 → IsAnswer false c reply → HasProgress c reply
  from_answer c (c', some e) empty h = tt
  from_answer c (c', none) empty (inl (e, body, some_left, grown, nothing)) =
      (empty, inl (omega (arith, some_left, ap length grown, length-append c.hand body)))
  from_answer c (c', none) empty (inr (inl (e, hc, changed, kept, nothing))) = absurd cc
  from_answer c (c', none) empty (inr (inr (e, complete, kept, something))) =
      (empty, inr (ap length kept, something))

  -- With application data there to read, a record is not read.
  pending-HasProgress :
      (c : Conn)
      → (length c.input == 0) ≡ false
      → Gives (HasProgress c) (read_record_or_ccs false c)
  unfolding read_record_or_ccs read_rounds receive set_in_error
  pending-HasProgress c some_left = elim (Option-cases c.incoming.failed) [
    | inl fine ↦ rw (read_record_or_ccs, read_rounds, receive, fine, some_left) (gives_ok tt)
    | inr (e, failed) ↦ rw (read_record_or_ccs, read_rounds, receive, failed) (gives_ok tt)
  ]

  read_record-HasProgress : (c : Conn) → Gives (HasProgress c) (read_record c)
  unfolding read_record
  read_record-HasProgress c = elim (Bool-cases (length c.input == 0)) [
    | inl empty ↦
        Gives-map (read_record_or_ccs-IsAnswer false c)
          (λ reply h. from_answer c reply ((==_iff (length c.input) 0).0 empty) h)
    | inr some_left ↦ pending-HasProgress c some_left
  ]

  -- What is left to do: a byte a round, and one more where application data came in.
  abbrev left_over : Conn → ℕ
  left_over c = if length c.input == 0 then 1 else 0

  -- Without an error, `n` bytes of handshake data are there.
  abbrev IsFull : ℕ → Reply → Type 0
  IsFull n (c, some e) = Unit {0}
  IsFull n (c, none) = n ≤ length c.hand

  read_hand-IsFull :
      (fuel n : ℕ) (c : Conn)
      → n + left_over c ≤ fuel + length c.hand
      → Gives (IsFull n) (read_hand fuel n c)
  unfolding read_hand
  read_hand-IsFull zero n c h =
      let enough : n ≤ length c.hand = omega (arith, h) in
      rw (le→ltb (length c.hand) n enough) (gives_ok enough)
  read_hand-IsFull (suc fuel) n c h = elim (Bool-cases (ltb (length c.hand) n)) [
    | inl short ↦ rw short (
        >>=-Gives _ _ (read_record-HasProgress c)
          (λ reply p. next reply p (λ c' h'. read_hand-IsFull fuel n c' h')))
    | inr full ↦ rw full (gives_ok (ground (arith, full)))
  ]
    where
      next :
          (reply : Reply)
          → HasProgress c reply
          → ((c' : Conn)
              → n + left_over c' ≤ fuel + length c'.hand
              → Gives (IsFull n) (read_hand fuel n c'))
          → Gives
              (IsFull n)
              (on_error reply.1 (λ e. ok (reply.0, some e)) (read_hand fuel n reply.0))
      next (c', some e) p again = gives_ok tt
      next (c', none) (empty, inl grown) again = again c' (ground (arith, h, empty, grown))
      next (c', none) (empty, inr (kept, something)) again =
          again c' (ground (arith, h, empty, kept, something))

  refuse_message-Always : (c : Conn) → Gives Always (refuse_message c)
  unfolding refuse_message
  refuse_message-Always c =
      >>=-Gives _ _ (send_alert-Gives c 10 (omega arith)) (λ reply p. gives_ok tt)

  take_message-Always :
      (others : List ℕ → Option Handshake) (n : ℕ) (c : Conn)
      → Gives Always (take_message others n c)
  unfolding take_message
  take_message-Always others n c =
      elim (Option-cases (unmarshal others c.sender.vers (take (4 + n) c.hand))) [
        | inl bad ↦
            rw (take_message, bad) (refuse_message-Always (record c { hand = drop (4 + n) c.hand }))
        | inr (m, good) ↦ rw (take_message, good) (gives_ok tt)
      ]

  read_message-Always :
      (others : List ℕ → Option Handshake) (c : Conn) → Gives Always (read_message others c)
  unfolding read_message
  read_message-Always others c =
      if-Gives _ _ _ (>>=-Gives _ _ (send_alert-Gives c 80 (omega arith)) (λ reply p. gives_ok tt))
        (>>=-Gives _ _
          (read_hand-IsFull (4 + u24_at 1 c.hand + 2) (4 + u24_at 1 c.hand) c (ground arith))
          (λ reply p. after reply))
    where
      after :
          (reply : Reply)
          → Gives {A = MessageReply} Always (
              on_error reply.1
                (λ e. ok (reply.0, none, some e))
                (take_message others (u24_at 1 c.hand) reply.0))
      after (c', some e) = gives_ok tt
      after (c', none) = take_message-Always others (u24_at 1 c.hand) c'

  -- `readHandshake` of any connection returns, panics or waits for the network: the rounds that
  -- its two loops are given, two more than the bytes that they wait for, are enough, whatever
  -- arrives.
  pub read_handshake-ends :
      (others : List ℕ → Option Handshake) (c : Conn) → read_handshake others c ≢ out_of_fuel
  unfolding read_handshake
  read_handshake-ends others c =
      Gives-ends (read_handshake others c)
        (>>=-Gives _ _ (read_hand-IsFull 6 4 c (ground arith)) (λ reply p. after reply))
    where
      after :
          (reply : Reply)
          → Gives {A = MessageReply} Always
              (on_error reply.1 (λ e. ok (reply.0, none, some e)) (read_message others reply.0))
      after (c', some e) = gives_ok tt
      after (c', none) = read_message-Always others c'

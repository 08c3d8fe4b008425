-- ===== src/Conn.antt =====
-- conn.go: the state of a connection, and what it asks of the network. The mutexes are left out: each
-- operation runs alone on its direction.
pub mod Output
pub mod Input
pub mod Disguised
pub mod Handshake
pub mod Toy
mod Tests
use disguise.Common.{ℕ, List, [], ◌∷◌, ◌++◌, Bool, Option, none, some, Error, Outcome, ok, blocked}
use disguise.Common.Crypto.{Crypto}
use disguise.Record.{HalfConn, set_error_locked}
use disguise.Record.Sizes.{Sender}

module _ ⦃C : Crypto⦄ where
  -- `Conn`. `sender` has the fields that the size of a record depends on, with `out`. The network is the
  -- results of the calls of `Read` and `Write` that are left, and what was written. `draws` gives the random
  -- source of each record, of which `drawn` are used.
  pub record Conn : Type 0 where
    pub sender : Sender
    pub incoming : HalfConn
    pub have_vers : Bool
    pub handshake_complete : Bool
    pub is_client : Bool
    pub input : List ℕ
    pub raw_input : List ℕ
    pub hand : List ℕ
    pub retry_count : ℕ
    pub buffering : Bool
    pub send_buf : List ℕ
    pub close_notify_sent : Bool
    pub close_notify_err : Option Error
    pub reads : List (List ℕ × Option Error)
    pub writes : List (ℕ × Option Error)
    pub sent : List (List ℕ)
    pub draws : ℕ → Option (ℕ → ℕ)
    pub drawn : ℕ

  -- The connection after a call, and its error.
  abbrev pub Reply : Type 0
  Reply = Conn × Option Error

  -- `setErrorLocked` of one direction, and the error that it returns.
  unfoldable pub set_in_error : Conn → Option Error → Reply
  unfolding set_error_locked
  set_in_error c none = (record c { incoming = record c.incoming { failed = none } }, none)
  set_in_error c (some e) =
      let hc = set_error_locked c.incoming e in (record c { incoming = hc }, hc.failed)

  abbrev pub with_out : Conn → HalfConn → Conn
  with_out c hc = record c { sender = record c.sender { out = hc } }

  unfoldable pub set_out_error : Conn → Error → Reply
  unfolding set_error_locked
  set_out_error c e = let hc = set_error_locked c.sender.out e in (with_out c hc, hc.failed)

  abbrev pub take_result :
      Conn → List ℕ → List (ℕ × Option Error) → Outcome (Conn × ℕ × Option Error)
  take_result c bytes [] = blocked
  take_result c bytes ((n, e) ∷ rest) =
      ok (record c { writes = rest; sent = c.sent ++ (bytes ∷ []) }, n, e)

  -- `Write` of the network: the bytes it took, and its error.
  unfoldable pub net_write : Conn → List ℕ → Outcome (Conn × ℕ × Option Error)
  net_write c bytes = take_result c bytes c.writes

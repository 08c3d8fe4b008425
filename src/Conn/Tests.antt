-- ===== src/Conn/Tests.antt =====
-- Concrete runs of a connection, and its theorems at concrete inputs.
use disguise.Common.{
  ℕ, ◌≡◌, ◌≢◌, List, [], ◌∷◌, ◌++◌, true, false, none, some, ok, refl, length, panic, out_of_fuel,
  Gives, arith,
}
use disguise.Common.Bytes.{be}
use disguise.Conn.{Conn}
use disguise.Conn.Disguised.{read_and_decrypt}
use disguise.Conn.Disguised.Single.{waiting, unfailed, read_and_decrypt-single}
use disguise.Conn.Input.{read_record_or_ccs}
use disguise.Conn.Input.Advance.{IsAnswer}
use disguise.Conn.Input.Rounds.{read_record_or_ccs-IsAnswer}
use disguise.Conn.Handshake.{ActiveConn, read_handshake, close}
use disguise.Conn.Handshake.Read.{read_handshake-ends}
use disguise.Conn.Handshake.Delivered.{read_handshake-marshal}
use disguise.Conn.Handshake.Closed.{IsClosed, close-IsClosed}
use disguise.Conn.Toy.{half, shaking}
use disguise.Messages.{server_hello_done, marshal, encoding}
use disguise.Record.Protect.Tls13.{tls13, sealed_header}
use disguise.Record.Toy.{toy, open_sealed-seal}

read_record_or_ccs-IsAnswer_example :
    Gives (IsAnswer false shaking) (read_record_or_ccs false shaking)
read_record_or_ccs-IsAnswer_example = read_record_or_ccs-IsAnswer false shaking

abbrev sealed : List ℕ
sealed = toy.seal 3 (be 8 6) (104 ∷ 105 ∷ 23 ∷ []) (sealed_header 3 3 4)

read_and_decrypt-single_example :
    read_and_decrypt none (
      waiting shaking
        (tls13 (unfailed half) 3 1 6)
        []
        ((sealed_header 3 3 (length sealed) ++ sealed, none) ∷ []))
    ≡ panic
read_and_decrypt-single_example =
    read_and_decrypt-single shaking half 3 1 6 3 3 sealed (104 ∷ 105 ∷ []) [] none (omega arith)
      (omega arith) (omega arith) (omega arith)
      (open_sealed-seal 3 (be 8 6) (104 ∷ 105 ∷ 23 ∷ []) (sealed_header 3 3 4))

-- An empty ServerHelloDone, and what comes after it, have arrived.
abbrev delivered : Conn
delivered = record shaking { hand = 14 ∷ 0 ∷ 0 ∷ 0 ∷ 22 ∷ [] }

read_handshake-ends_example : read_handshake (λ bytes. none) shaking ≢ out_of_fuel
read_handshake-ends_example = read_handshake-ends (λ bytes. none) shaking

read_handshake-marshal_example :
    read_handshake (λ bytes. none) delivered
    ≡ ok (
      record delivered { hand = 22 ∷ [] },
      some (record { raw = none; message = server_hello_done }),
      none,
    )
unfolding marshal encoding
read_handshake-marshal_example =
    read_handshake-marshal (λ bytes. none) delivered server_hello_done (22 ∷ []) (omega arith) tt
      (omega arith) refl

-- A connection that is open, with no write in flight.
abbrev idle : ActiveConn
idle = record {
  conn = record shaking { handshake_complete = true; writes = (7, none) ∷ [] };
  active_call = 0;
  close_result = none;
  closes = 0;
}

close-IsClosed_example : Gives (IsClosed idle) (close idle)
close-IsClosed_example = close-IsClosed idle refl

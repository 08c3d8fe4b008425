-- ===== src/Conn/Toy.antt =====
-- A connection to run conn.go with.
use disguise.Common.{[], ◌∷◌, true, false, none}
use disguise.Conn.{Conn}
use disguise.Record.{HalfConn}
use disguise.Record.Toy.{toy}

abbrev pub half : HalfConn
half = record {
  failed = none;
  version = 772;
  cipher = none;
  mac = none;
  seq = 0 ∷ 0 ∷ 0 ∷ 0 ∷ 0 ∷ 0 ∷ 0 ∷ 0 ∷ [];
  next_cipher = none;
  next_mac = none;
  traffic_secret = [];
}

-- A connection in its handshake, to which an alert of level 1 and a handshake record arrive.
abbrev pub shaking : Conn
shaking = record {
  sender = record {
    vers = 771;
    dynamic_record_sizing_disabled = false;
    bytes_sent = 0;
    packets_sent = 0;
    out = half;
  };
  incoming = record half { version = 771 };
  have_vers = true;
  handshake_complete = false;
  is_client = true;
  input = [];
  raw_input = [];
  hand = [];
  retry_count = 0;
  buffering = false;
  send_buf = [];
  close_notify_sent = false;
  close_notify_err = none;
  reads = (21 ∷ 3 ∷ 3 ∷ 0 ∷ 2 ∷ 1 ∷ 90 ∷ [], none) ∷ (22 ∷ 3 ∷ 3 ∷ 0 ∷ 1 ∷ 14 ∷ [], none) ∷ [];
  writes = [];
  sent = [];
  draws = λ i. none;
  drawn = 0;
}

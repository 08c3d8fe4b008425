-- ===== src/Common/Crypto.antt =====
-- The interface of the ciphers of Go's crypto packages.
use Prim.Native.Nat.{ℕ}
use mathlib.Core.List.{List}
use mathlib.Core.Option.{Option}

-- A cipher with its state. Each call of a stateful one gives the state after it.
pub record Crypto : Type 1 where
  pub Key : Type 0
  -- `XORKeyStream`.
  pub xor_key_stream : Key → List ℕ → List ℕ × Key
  -- `Seal` and `Open`: the nonce, the text and the additional data.
  pub seal : Key → List ℕ → List ℕ → List ℕ → List ℕ
  pub open_sealed : Key → List ℕ → List ℕ → List ℕ → Option (List ℕ)
  -- `SetIV` and `CryptBlocks`.
  pub set_iv : Key → List ℕ → Key
  pub crypt_blocks : Key → List ℕ → List ℕ × Key

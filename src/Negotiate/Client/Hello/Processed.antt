-- ===== src/Negotiate/Client/Hello/Processed.antt =====
-- What the client's `processServerHello` takes, and what it resumes.
use disguise.Common.{ℕ, ◌≡◌, false, none, some, List}
use disguise.Common.Crypto.{Crypto}
use disguise.Negotiate.Client.Hello.{HelloReply}

module _ ⦃C : Crypto⦄ {X : Type 0} where
  -- A refusal with the error and without a resumption.
  abbrev pub IsDeclined : List ℕ → HelloReply X → Type 0
  IsDeclined m (s, resumed, none) = ⊥
  IsDeclined m (s, resumed, some e) = (resumed ≡ false) × (s.master_secret ≡ m)

-- ===== src/Common/Everywhere.antt =====
-- A predicate that holds of every element, through the operations on lists.
use disguise.Common.Lists.{All, take, replicate, copy, copy_from}
use Prim.Native.Nat.{ℕ, zero, suc}
use mathlib.Core.List.{List, [], ◌∷◌, ◌++◌}

module _ {ℓ κ} {A : Type ℓ} (P : A → Type κ) where
  pub All-append : (xs ys : List A) → All P xs → All P ys → All P (xs ++ ys)
  All-append [] ys h k = k
  All-append (x ∷ xs) ys h k = (h.0, All-append xs ys h.1 k)

  pub All-take : (n : ℕ) (xs : List A) → All P xs → All P (take n xs)
  All-take zero xs h = tt
  All-take (suc n) [] h = tt
  All-take (suc n) (x ∷ xs) h = (h.0, All-take n xs h.1)

  pub All-replicate : (n : ℕ) (a : A) → P a → All P (replicate n a)
  All-replicate zero a h = tt
  All-replicate (suc n) a h = (h, All-replicate n a h)

  pub All-copy : (dst src : List A) → All P dst → All P src → All P (copy dst src)
  All-copy [] src h k = tt
  All-copy (y ∷ dst) [] h k = h
  All-copy (y ∷ dst) (x ∷ src) h k = (k.0, All-copy dst src h.1 k.1)

  pub All-copy_from :
      (i : ℕ) (dst src : List A) → All P dst → All P src → All P (copy_from i dst src)
  All-copy_from zero dst src h k = All-copy dst src h k
  All-copy_from (suc i) [] src h k = tt
  All-copy_from (suc i) (y ∷ dst) src h k = (h.0, All-copy_from i dst src h.1 k)

pub All-map {ℓ κ} :
    {A : Type ℓ} (P Q : A → Type κ) (xs : List A) → ((x : A) → P x → Q x) → All P xs → All Q xs
All-map P Q [] f h = tt
All-map P Q (x ∷ xs) f h = (f x h.0, All-map P Q xs f h.1)

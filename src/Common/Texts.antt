-- ===== src/Common/Texts.antt =====
-- Go's strings as lists of bytes, their comparison, and the loops that look for one.
use disguise.Common.Tests.{◌==◌, ==_refl, if◌then◌else◌, Bool-cases}
use Prim.Native.Nat.{ℕ}
use mathlib.Core.Path.{◌≡◌, refl, sym, ap, ◌∙◌}
use mathlib.Core.Logic.{inl, inr}
use mathlib.Core.Bool.{Bool, true, false}
use mathlib.Core.Option.{Option, none, some}
use mathlib.Core.List.{List, [], ◌∷◌}
use native.Mathlib.Omega.{arith}

-- `==` of two strings, and `bytes.Equal`.
unfoldable pub same_list : List ℕ → List ℕ → Bool
same_list [] [] = true
same_list (x ∷ xs) (y ∷ ys) = let rest = same_list xs ys in if x == y then rest else false
same_list xs ys = false

pub same_list_refl : (xs : List ℕ) → same_list xs xs ≡ true
unfolding same_list
same_list_refl [] = refl
same_list_refl (x ∷ xs) = rw (==_refl x) (same_list_refl xs)

pub same_list-eq : (xs ys : List ℕ) → same_list xs ys ≡ true → xs ≡ ys
unfolding same_list
same_list-eq [] [] h = refl
same_list-eq [] (y ∷ ys) h = absurd cc
same_list-eq (x ∷ xs) [] h = absurd cc
same_list-eq (x ∷ xs) (y ∷ ys) h = ground (arith, same_list-eq xs ys)

pub same_list_comm : (xs ys : List ℕ) → same_list xs ys ≡ same_list ys xs
unfolding same_list
same_list_comm [] [] = refl
same_list_comm [] (y ∷ ys) = refl
same_list_comm (x ∷ xs) [] = refl
same_list_comm (x ∷ xs) (y ∷ ys) = ground (arith, same_list_comm xs ys)

-- The loop that looks for a string.
unfoldable pub has_text : List ℕ → List (List ℕ) → Bool
has_text t [] = false
has_text t (u ∷ us) = let rest = has_text t us in if same_list u t then true else rest

-- The first string that passes a test.
unfoldable pub first_text : (List ℕ → Bool) → List (List ℕ) → Option (List ℕ)
first_text p [] = none
first_text p (t ∷ ts) = let rest = first_text p ts in if p t then some t else rest

pub first_text-passes :
    (p : List ℕ → Bool) (ts : List (List ℕ)) {t : List ℕ} → first_text p ts ≡ some t → p t ≡ true
unfolding first_text
first_text-passes p [] h = absurd cc
first_text-passes p (u ∷ us) {t} h = elim (Bool-cases (p u)) [
  | inl passes ↦ ap p (sym (some-injective (rw passes at h))) ∙ passes
  | inr fails ↦ first_text-passes p us (rw fails at h)
]
  where
    some-injective : some u ≡ some t → u ≡ t
    some-injective e = cc

-- ===== src/Common/Choice.antt =====
-- The loops that look for a number in a list, and for the first number that passes a test.
use disguise.Common.Tests.{◌==◌, ==_iff, ==_refl, if◌then◌else◌, Bool-cases}
use disguise.Common.Lists.{All}
use Prim.Native.Nat.{ℕ}
use mathlib.Core.Path.{◌≡◌, refl, sym, ap, ◌∙◌, subst}
use mathlib.Core.Logic.{inl, inr}
use mathlib.Core.Bool.{Bool, true, false}
use mathlib.Core.Option.{Option, none, some}
use mathlib.Core.List.{List, [], ◌∷◌, ◌++◌}
use native.Mathlib.Omega.{arith}

-- `for _, y := range xs { if y == x { return true } }; return false`.
unfoldable pub contains : ℕ → List ℕ → Bool
contains x [] = false
contains x (y ∷ ys) = if y == x then true else contains x ys

-- `for _, x := range xs { if p(x) { return x } }`.
unfoldable pub first_where : (ℕ → Bool) → List ℕ → Option ℕ
first_where p [] = none
first_where p (x ∷ xs) = if p x then some x else first_where p xs

-- `x` passes the test, and nothing before it in the list does.
pub record IsFirst (p : ℕ → Bool) (xs : List ℕ) (x : ℕ) : Type 0 where
  pub before : List ℕ
  pub rest : List ℕ
  pub split : xs ≡ before ++ (x ∷ rest)
  pub passes : p x ≡ true
  pub fail : All (λ y. p y ≡ false) before

pub some-injective : {a b : ℕ} → some a ≡ some b → a ≡ b
some-injective e = cc

pub first_where-some :
    (p : ℕ → Bool) (xs : List ℕ) {x : ℕ} → first_where p xs ≡ some x → IsFirst p xs x
unfolding first_where
first_where-some p [] h = absurd cc
first_where-some p (y ∷ ys) {x} h = elim (Bool-cases (p y)) [
  | inl passes ↦
      let here : some y ≡ some x = rw passes at h in
      let same : y ≡ x = some-injective here in
      record {
        before = [];
        rest = ys;
        split = ap (λ z. z ∷ ys) same;
        passes = sym (ap p same) ∙ passes;
        fail = tt;
      }
  | inr fails ↦
      let r = first_where-some p ys (rw fails at h) in
      record {
        before = y ∷ r.before;
        rest = r.rest;
        split = ap (◌∷◌ y) r.split;
        passes = r.passes;
        fail = (fails, r.fail);
      }
]

pub first_where-none :
    (p : ℕ → Bool) (xs : List ℕ) → first_where p xs ≡ none → All (λ y. p y ≡ false) xs
unfolding first_where
first_where-none p [] h = tt
first_where-none p (y ∷ ys) h = elim (Bool-cases (p y)) [
  | inl passes ↦ absurd (none-some (rw passes at h))
  | inr fails ↦ (fails, first_where-none p ys (rw fails at h))
]
  where
    none-some : some y ≡ none → ⊥
    none-some e = cc

-- What passes first stands in the list.
pub contains-split : (x : ℕ) (before rest : List ℕ) → contains x (before ++ (x ∷ rest)) ≡ true
unfolding contains
contains-split x [] rest = rw (==_refl x) refl
contains-split x (y ∷ before) rest = ground (arith, contains-split x before rest)

pub IsFirst-contains : {p : ℕ → Bool} {xs : List ℕ} {x : ℕ} → IsFirst p xs x → contains x xs ≡ true
IsFirst-contains {x = x} h = ap (contains x) h.split ∙ contains-split x h.before h.rest

-- What holds everywhere in a list holds of what stands in it.
pub All-contains : (P : ℕ → Type 0) (xs : List ℕ) (x : ℕ) → All P xs → contains x xs ≡ true → P x
unfolding contains
All-contains P [] x h c = absurd cc
All-contains P (y ∷ ys) x h c = elim (Bool-cases (y == x)) [
  | inl here ↦ subst P ((==_iff y x).0 here) h.0
  | inr there ↦ All-contains P ys x h.1 (rw there at c)
]

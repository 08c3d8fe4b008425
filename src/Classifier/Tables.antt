-- ===== src/Classifier/Tables.antt =====
-- Tables with an entry for every state, and what an insertion keeps of them.
use disguise.Common.{
  ℕ, zero, suc, ◌<◌, ◌≡◌, refl, ◌∙◌, List, [], ◌∷◌, ◌==◌, Bool-cases, inl, inr, arith,
}
use disguise.Common.{some, length, All}
use disguise.Common.Maps.{lookup, insert, lookup-insert}
use disguise.Classifier.{}
use disguise.Classifier.Predict.{HasRows}

-- Every state has an entry.
abbrev pub HasKeys : {A : Type 0} → List (ℕ × A) → Type 0
HasKeys {A} m = (k : ℕ) → k < 3 → (r : A) × (lookup k m ≡ some r)

pub HasKeys-insert :
    {A : Type 0} (m : List (ℕ × A)) (j : ℕ) (v : A) → HasKeys m → HasKeys (insert j v m)
HasKeys-insert m j v h = λ k small. elim (Bool-cases (j == k)) [
  | inl same ↦ (v, lookup-insert k j v m ∙ rw same)
  | inr other ↦ let (r, e) = h k small in (r, lookup-insert k j v m ∙ rw (other, e))
]

pub HasRows-insert :
    {A : Type 0} (m : List (ℕ × List A)) (j : ℕ) (v : List A)
    → length v ≡ 3
    → HasRows m
    → HasRows (insert j v m)
HasRows-insert m j v size h = λ k small. elim (Bool-cases (j == k)) [
  | inl same ↦ (v, lookup-insert k j v m ∙ rw same, size)
  | inr other ↦ let (r, e, n) = h k small in (r, lookup-insert k j v m ∙ rw (other, e), n)
]

pub All-insert :
    {A : Type 0} (P : ℕ × A → Type 0) (m : List (ℕ × A)) (j : ℕ) (v : A)
    → P (j, v)
    → All P m
    → All P (insert j v m)
unfolding insert
All-insert P [] j v p h = (p, tt)
All-insert P ((k, w) ∷ m) j v p h = elim (Bool-cases (k == j)) [
  | inl same ↦ rw same (p, h.1)
  | inr other ↦ rw other (h.0, All-insert P m j v p h.1)
]

abbrev pub IsRow : {A : Type 0} → ℕ × List A → Type 0
IsRow e = (e.0 < 3) × (length e.1 ≡ 3)

abbrev pub IsKey : {A : Type 0} → ℕ × A → Type 0
IsKey e = e.0 < 3

pub three_keys : {A : Type 0} (a b c : A) → HasKeys ((0, a) ∷ (1, b) ∷ (2, c) ∷ [])
unfolding lookup
three_keys a b c zero small = (a, refl)
three_keys a b c (suc zero) small = (b, refl)
three_keys a b c (suc (suc zero)) small = (c, refl)
three_keys a b c (suc (suc (suc k))) small = absurd (omega arith)

pub three_rows :
    {A : Type 0} (a b c : List A)
    → length a ≡ 3
    → length b ≡ 3
    → length c ≡ 3
    → HasRows ((0, a) ∷ (1, b) ∷ (2, c) ∷ [])
unfolding lookup
three_rows a b c p q r zero small = (a, refl, p)
three_rows a b c p q r (suc zero) small = (b, refl, q)
three_rows a b c p q r (suc (suc zero)) small = (c, refl, r)
three_rows a b c p q r (suc (suc (suc k))) small = absurd (omega arith)

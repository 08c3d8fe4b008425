-- ===== src/Scheduler/Array.antt =====
-- Reading and writing a list at native indices.
use disguise.Common.{
  ℕ, zero, suc, ◌<◌, ◌≡◌, refl, ap, List, [], ◌∷◌, ◌++◌, ◌==◌, if◌then◌else◌, length, get_or,
  get_elem?, set, take, some, arith, length-set,
}
use mathlib.Core.List.{Perm, map}
use mathlib.Core.List.Perm

module _ {ℓ} {A : Type ℓ} (d : A) where
  pub get_elem?-get_or :
      (xs : List A) (i : ℕ) → i < length xs → get_elem? xs i ≡ some (get_or xs i d)
  get_elem?-get_or [] i h = absurd (omega arith)
  get_elem?-get_or (x ∷ xs) zero h = refl
  get_elem?-get_or (x ∷ xs) (suc i) h = get_elem?-get_or xs i (omega arith)

  pub get_or-set :
      (xs : List A) (i j : ℕ) (v : A)
      → i < length xs
      → get_or (set xs i v) j d ≡ (if i == j then v else get_or xs j d)
  get_or-set [] i j v h = absurd (omega arith)
  get_or-set (x ∷ xs) zero zero v h = refl
  get_or-set (x ∷ xs) zero (suc j) v h = ground arith
  get_or-set (x ∷ xs) (suc i) zero v h = ground arith
  get_or-set (x ∷ xs) (suc i) (suc j) v h = ground (arith, get_or-set xs i j v)

  pub get_or-append :
      (xs ys : List A) (i : ℕ) → i < length xs → get_or (xs ++ ys) i d ≡ get_or xs i d
  get_or-append [] ys i h = absurd (omega arith)
  get_or-append (x ∷ xs) ys zero h = refl
  get_or-append (x ∷ xs) ys (suc i) h = get_or-append xs ys i (omega arith)

  pub get_or-append_last : (xs : List A) (y : A) → get_or (xs ++ (y ∷ [])) (length xs) d ≡ y
  get_or-append_last [] y = refl
  get_or-append_last (x ∷ xs) y = get_or-append_last xs y

  pub get_or-take : (n : ℕ) (xs : List A) (i : ℕ) → i < n → get_or (take n xs) i d ≡ get_or xs i d
  get_or-take zero xs i h = absurd (omega arith)
  get_or-take (suc n) [] i h = refl
  get_or-take (suc n) (x ∷ xs) zero h = refl
  get_or-take (suc n) (x ∷ xs) (suc i) h = get_or-take n xs i (omega arith)

  pub take-append-last :
      (n : ℕ) (xs : List A) → length xs ≡ suc n → take n xs ++ (get_or xs n d ∷ []) ≡ xs
  take-append-last zero [] h = absurd (omega arith)
  take-append-last zero (x ∷ []) h = refl
  take-append-last zero (x ∷ y ∷ xs) h = absurd (omega arith)
  take-append-last (suc n) [] h = absurd (omega arith)
  take-append-last (suc n) (x ∷ xs) h = ap (◌∷◌ x) (take-append-last n xs (omega arith))

  -- The write at `i` trades the old element for the new one.
  pub set-perm :
      (xs : List A) (i : ℕ) (v : A) → i < length xs → Perm (get_or xs i d ∷ set xs i v) (v ∷ xs)
  set-perm [] i v h = absurd (omega arith)
  set-perm (x ∷ xs) zero v h = Perm.swap v x xs
  set-perm (x ∷ xs) (suc i) v h =
      Perm.trans (Perm.swap x (get_or xs i d) (set xs i v))
        (Perm.trans (Perm.cons x (set-perm xs i v (omega arith))) (Perm.swap v x xs))

  -- Two elements change places.
  abbrev pub exchange : List A → ℕ → ℕ → List A
  exchange xs i j = set (set xs i (get_or xs j d)) j (get_or xs i d)

  pub exchange-perm :
      (xs : List A) (i j : ℕ) → i < length xs → j < length xs → Perm (exchange xs i j) xs
  exchange-perm xs i j hi hj =
      let ys = set xs i (get_or xs j d) in
      let kept : get_or ys j d ≡ get_or xs j d =
        ground (arith, get_or-set xs i j (get_or xs j d)) in
      let second =
        rw kept at (set-perm ys j (get_or xs i d) (rw (length-set xs i (get_or xs j d)) hj)) in
      Perm.cons_inv (Perm.trans second (set-perm xs i (get_or xs j d) hi))

pub map-set {ℓ κ} :
    {A : Type ℓ} {B : Type κ} (f : A → B) (xs : List A) (i : ℕ) (v : A)
    → map f (set xs i v) ≡ set (map f xs) i (f v)
map-set f [] i v = refl
map-set f (x ∷ xs) zero v = refl
map-set f (x ∷ xs) (suc i) v = ap (◌∷◌ (f x)) (map-set f xs i v)

pub get_or-map {ℓ κ} :
    {A : Type ℓ} {B : Type κ} (f : A → B) (d : A) (xs : List A) (i : ℕ)
    → get_or (map f xs) i (f d) ≡ f (get_or xs i d)
get_or-map f d [] i = refl
get_or-map f d (x ∷ xs) zero = refl
get_or-map f d (x ∷ xs) (suc i) = get_or-map f d xs i

pub length-map {ℓ κ} :
    {A : Type ℓ} {B : Type κ} (f : A → B) (xs : List A) → length (map f xs) ≡ length xs
length-map f [] = refl
length-map f (x ∷ xs) = ap suc (length-map f xs)

-- ===== src/Record/Toy.antt =====
-- A cipher to run the record layer with: it seals by a tag that encodes the key and the additional data.
use disguise.Common.{
  ℕ, zero, suc, ◌+◌, ◌-◌, ◌*◌, ◌≡◌, ◌≢◌, refl, sym, ap, List, [], ◌∷◌, ◌++◌, some, none, length,
  length-append, get_or, get_or-last, take, take_append_left, ◌==◌, ==_refl, not-==, if◌then◌else◌,
  arith,
}
use disguise.Common.Crypto.{Crypto}

-- Pairs of numbers and lists of numbers as numbers.
abbrev pair : ℕ → ℕ → ℕ
pair zero r = 2 * r + 1
pair (suc x) r = 2 * pair x r

abbrev code : List ℕ → ℕ
code [] = 0
code (x ∷ xs) = pair x (code xs)

pair-injective : (x y r s : ℕ) → pair x r ≡ pair y s → (x ≡ y) × (r ≡ s)
pair-injective zero zero r s e = (refl, omega (arith, e))
pair-injective zero (suc y) r s e = absurd (omega (arith, e))
pair-injective (suc x) zero r s e = absurd (omega (arith, e))
pair-injective (suc x) (suc y) r s e =
    let (same, rest) = pair-injective x y r s (omega (arith, e)) in (ap suc same, rest)

pair-positive : (x r : ℕ) → pair x r ≢ 0
pair-positive zero r e = omega (arith, e)
pair-positive (suc x) r e = pair-positive x r (omega (arith, e))

code-injective : (xs ys : List ℕ) → code xs ≡ code ys → xs ≡ ys
code-injective [] [] e = refl
code-injective [] (y ∷ ys) e = absurd (pair-positive y (code ys) (sym e))
code-injective (x ∷ xs) [] e = absurd (pair-positive x (code xs) e)
code-injective (x ∷ xs) (y ∷ ys) e =
    let (same, rest) = pair-injective x y (code xs) (code ys) e in
    rw (same, code-injective xs ys rest) refl

abbrev pub swapped : List ℕ → List ℕ
swapped [] = []
swapped (a ∷ []) = a ∷ []
swapped (a ∷ b ∷ xs) = b ∷ a ∷ swapped xs

pub swapped-swapped : (xs : List ℕ) → swapped (swapped xs) ≡ xs
swapped-swapped [] = refl
swapped-swapped (a ∷ []) = refl
swapped-swapped (a ∷ b ∷ xs) = ap (λ l. a ∷ b ∷ l) (swapped-swapped xs)

pub length-swapped : (xs : List ℕ) → length (swapped xs) ≡ length xs
length-swapped [] = refl
length-swapped (a ∷ []) = refl
length-swapped (a ∷ b ∷ xs) = ap (λ n. suc (suc n)) (length-swapped xs)

instance abbrev pub toy : Crypto
toy = record {
  Key = ℕ;
  xor_key_stream = λ key text. (swapped text, suc key);
  seal = λ key nonce text extra. text ++ (code (key ∷ extra) ∷ []);
  open_sealed = λ key nonce text extra.
      if get_or text (length text - 1) 0 == code (key ∷ extra)
      then some (take (length text - 1) text)
      else none;
  set_iv = λ key iv. length iv;
  crypt_blocks = λ key text. (swapped text, suc key);
}

pub length-seal :
    (key : ℕ) (nonce text extra : List ℕ) → length (toy.seal key nonce text extra) ≡ length text + 1
length-seal key nonce text extra = length-append text (code (key ∷ extra) ∷ [])

last_of : (text : List ℕ) (t : ℕ) → length (text ++ (t ∷ [])) - 1 ≡ length text
last_of text t = omega (arith, length-append text (t ∷ []))

pub open_sealed-seal :
    (key : ℕ) (nonce text extra : List ℕ)
    → toy.open_sealed key nonce (toy.seal key nonce text extra) extra ≡ some text
open_sealed-seal key nonce text extra =
    let t = code (key ∷ extra) in
    rw
      (
        last_of text t,
        get_or-last text t 0,
        ==_refl t,
        take_append_left (length text) text (t ∷ []) refl,
      )
      refl

pub open_sealed-seal_other :
    (key : ℕ) (nonce text extra extra' : List ℕ)
    → extra ≢ extra'
    → toy.open_sealed key nonce (toy.seal key nonce text extra) extra' ≡ none
open_sealed-seal_other key nonce text extra extra' differ =
    let t = code (key ∷ extra) in
    let other : t ≢ code (key ∷ extra') = λ e.
      differ
        (code-injective extra extra' (pair-injective key key (code extra) (code extra') e).1) in
    rw (last_of text t, get_or-last text t 0, not-== other) refl

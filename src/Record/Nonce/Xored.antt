-- ===== src/Record/Nonce/Xored.antt =====
-- Exclusive or of bytes, and of the bytes of a nonce from a place of the mask on.
use disguise.Common.{
  ℕ, suc, ◌≡◌, refl, sym, ap, ◌∙◌, Bool, true, ◌&&◌, List, [], ◌∷◌, ◌++◌, some, ok, length,
  length-append, get_elem?, set, All, ltb, ltb→lt, ◌==◌, ==_iff, arith,
}
use disguise.Common.Bytes.{IsByte}
use disguise.Record.Nonce.{xor_loop}
use disguise.Record.Padding.Bits.{passes, passes-at, and_eq}
use Prim.Native.Nat.{bit_xor}
use mathlib.Core.List.{append_assoc}

undone : ℕ → ℕ → Bool
undone p b =
    ltb (bit_xor p b) 256
    && bit_xor (bit_xor p b) b == p
    && bit_xor p (bit_xor p b) == b
    && bit_xor b p == bit_xor p b
    && bit_xor p 0 == p

undone_table : passes (λ p. passes (undone p) 256) 256 ≡ true
unfolding passes undone
undone_table = refl

-- What exclusive or does on bytes.
pub record XorLaws (p b : ℕ) : Type 0 where
  pub byte : IsByte (bit_xor p b)
  pub back : bit_xor (bit_xor p b) b ≡ p
  pub other : bit_xor p (bit_xor p b) ≡ b
  pub swapped : bit_xor b p ≡ bit_xor p b
  pub neutral : bit_xor p 0 ≡ p

pub xor_laws : (p b : ℕ) → IsByte p → IsByte b → XorLaws p b
unfolding undone
xor_laws p b h k =
    let found =
      passes-at (undone p) 256 (passes-at (λ p. passes (undone p) 256) 256 undone_table p h) b k in
    let (r1, neutral) = and_eq _ _ found in
    let (r2, swapped) = and_eq _ _ r1 in
    let (r3, other) = and_eq _ _ r2 in
    let (low, back) = and_eq _ _ r3 in
    record {
      byte = ltb→lt _ 256 low;
      back = (==_iff _ _).0 back;
      other = (==_iff _ _).0 other;
      swapped = (==_iff _ _).0 swapped;
      neutral = (==_iff _ _).0 neutral;
    }

-- The exclusive or of two lists of the same length.
unfoldable pub xor_bytes : List ℕ → List ℕ → List ℕ
xor_bytes [] bs = []
xor_bytes (x ∷ xs) [] = []
xor_bytes (x ∷ xs) (b ∷ bs) = bit_xor x b ∷ xor_bytes xs bs

pub length-xor_bytes :
    (xs bs : List ℕ) → length xs ≡ length bs → length (xor_bytes xs bs) ≡ length xs
unfolding xor_bytes
length-xor_bytes [] bs e = refl
length-xor_bytes (x ∷ xs) [] e = absurd (omega arith)
length-xor_bytes (x ∷ xs) (b ∷ bs) e = ap suc (length-xor_bytes xs bs (omega arith))

pub xor_bytes-IsByte :
    (xs bs : List ℕ) → All IsByte xs → All IsByte bs → All IsByte (xor_bytes xs bs)
unfolding xor_bytes
xor_bytes-IsByte [] bs h k = tt
xor_bytes-IsByte (x ∷ xs) [] h k = tt
xor_bytes-IsByte (x ∷ xs) (b ∷ bs) h k =
    ((xor_laws x b h.0 k.0).byte, xor_bytes-IsByte xs bs h.1 k.1)

pub xor_bytes-back :
    (xs bs : List ℕ)
    → length xs ≡ length bs
    → All IsByte xs
    → All IsByte bs
    → xor_bytes (xor_bytes xs bs) bs ≡ xs
unfolding xor_bytes
xor_bytes-back [] bs e h k = refl
xor_bytes-back (x ∷ xs) [] e h k = absurd (omega arith)
xor_bytes-back (x ∷ xs) (b ∷ bs) e h k =
    rw ((xor_laws x b h.0 k.0).back, xor_bytes-back xs bs (omega arith) h.1 k.1) refl

-- The mask and its exclusive or determine the other list.
pub xor_bytes-other :
    (xs bs : List ℕ)
    → length xs ≡ length bs
    → All IsByte xs
    → All IsByte bs
    → xor_bytes xs (xor_bytes xs bs) ≡ bs
unfolding xor_bytes
xor_bytes-other [] [] e h k = refl
xor_bytes-other [] (b ∷ bs) e h k = absurd (omega arith)
xor_bytes-other (x ∷ xs) [] e h k = absurd (omega arith)
xor_bytes-other (x ∷ xs) (b ∷ bs) e h k =
    rw ((xor_laws x b h.0 k.0).other, xor_bytes-other xs bs (omega arith) h.1 k.1) refl

get_middle :
    (front : List ℕ) (x : ℕ) (xs : List ℕ) → get_elem? (front ++ (x ∷ xs)) (length front) ≡ some x
get_middle [] x xs = refl
get_middle (y ∷ front) x xs = get_middle front x xs

set_middle :
    (front : List ℕ) (x v : ℕ) (xs : List ℕ)
    → set (front ++ (x ∷ xs)) (length front) v ≡ (front ++ (v ∷ [])) ++ xs
set_middle [] x v xs = refl
set_middle (y ∷ front) x v xs = ap (◌∷◌ y) (set_middle front x v xs)

-- The loop changes what stands from its index on.
pub xor_loop_lem :
    (front xs bs : List ℕ)
    → length xs ≡ length bs
    → xor_loop (length front) bs (front ++ xs) ≡ ok (front ++ xor_bytes xs bs)
unfolding xor_loop xor_bytes
xor_loop_lem front [] [] e = refl
xor_loop_lem front [] (b ∷ bs) e = absurd (omega arith)
xor_loop_lem front (x ∷ xs) [] e = absurd (omega arith)
xor_loop_lem front (x ∷ xs) (b ∷ bs) e =
    let v = bit_xor x b in
    let grown : length (front ++ (v ∷ [])) ≡ suc (length front) =
      omega (arith, length-append front (v ∷ [])) in
    rw (get_middle front x xs, set_middle front x v xs, sym grown)
      (xor_loop_lem (front ++ (v ∷ [])) xs bs (omega arith)
        ∙ ap ok (append_assoc front (v ∷ []) (xor_bytes xs bs)))

-- ===== src/Record/Padding/Valid.antt =====
-- `extractPadding` and the padding that TLS asks for.
use disguise.Common.{
  ℕ, zero, suc, ◌+◌, ◌-◌, ◌/◌, ◌%◌, ◌<◌, ◌≤◌, ◌≡◌, refl, ◌∙◌, sym, List, [], ◌∷◌, Bool, true, false,
  ◌&&◌, ◌||◌, ltb, ◌==◌, Bool-cases, inl, inr, ◌⊎◌, if◌then◌else◌, length, get_or, All, arith,
  ltb→lt, lt→ltb,
}
use disguise.Common.Bytes.{IsByte}
use disguise.Record.Padding.{msb_mask, kept, pad_loop, extract_padding}
use disguise.Record.Padding.Bits.{kept_on, kept_off, spread_lem, selected}

-- The last byte tells the length of the padding before it, and every byte of the padding is the same.
pub record IsPadded (payload : List ℕ) : Type 0 where
  pub within : get_or payload (length payload - 1) 0 < length payload
  pub same :
      (k : ℕ)
      → k ≤ get_or payload (length payload - 1) 0
      → get_or payload (length payload - 1 - k) 0 ≡ get_or payload (length payload - 1) 0

get_or-IsByte : (payload : List ℕ) (i : ℕ) → All IsByte payload → get_or payload i 0 < 256
get_or-IsByte [] i h = omega arith
get_or-IsByte (x ∷ xs) zero h = h.0
get_or-IsByte (x ∷ xs) (suc i) h = get_or-IsByte xs i h.1

-- What the rounds test.
matches : ℕ → ℕ → List ℕ → ℕ → Bool
matches zero i payload p = true
matches (suc n) i payload p =
    (ltb p i || p == get_or payload (length payload - 1 - i) 0) && matches n (i + 1) payload p

and_true : (b : Bool) → b ≡ (b && true)
and_true true = refl
and_true false = refl

and_assoc : (a b c : Bool) → ((a && b) && c) ≡ (a && (b && c))
and_assoc true b c = refl
and_assoc false b c = refl

both : (a b : Bool) → (a && b) ≡ true → (a ≡ true) × (b ≡ true)
both true b h = (refl, h)
both false b h = cc

round :
    (i : ℕ) (payload : List ℕ) (p good : ℕ)
    → All IsByte payload
    → p < 256
    → good < 256
    → i < 256
    → let g =
        kept good
          (msb_mask ((p + 18446744073709551616 - i) % 18446744073709551616))
          p
          (get_or payload (length payload - 1 - i) 0) in
      (g < 256)
      × ((g == 255) ≡ (good == 255 && (ltb p i || p == get_or payload (length payload - 1 - i) 0)))
unfolding msb_mask
round i payload p good bytes p1 g1 i1 =
    let b1 = get_or-IsByte payload (length payload - 1 - i) bytes in
    elim (Bool-cases (ltb p i)) [
      | inl past ↦
          let off : ((p + 18446744073709551616 - i) % 18446744073709551616 / 2147483648 % 2 == 0)
              ≡ false =
            ground arith in
          rw (off, kept_off good p _ g1 p1 b1, past) (g1, and_true (good == 255))
      | inr inside ↦
          let on : ((p + 18446744073709551616 - i) % 18446744073709551616 / 2147483648 % 2 == 0)
              ≡ true =
            ground arith in
          rw (on, inside) (kept_on good p _ g1 p1 b1)
    ]

loop_lem :
    (n i : ℕ) (payload : List ℕ) (p good : ℕ)
    → All IsByte payload
    → p < 256
    → good < 256
    → i + n ≤ 256
    → (pad_loop n i payload p good < 256)
      × ((pad_loop n i payload p good == 255) ≡ (good == 255 && matches n i payload p))
unfolding pad_loop matches
loop_lem zero i payload p good bytes p1 g1 fits = (g1, and_true (good == 255))
loop_lem (suc n) i payload p good bytes p1 g1 fits =
    let (low, here) = round i payload p good bytes p1 g1 (omega arith) in
    let (low', rest) = loop_lem n (i + 1) payload p _ bytes p1 low (omega arith) in
    (low', rest ∙ rw here (and_assoc (good == 255) _ _))

-- All rounds pass exactly where the bytes of the padding that they see are the same.
matches-true :
    (n i : ℕ) (payload : List ℕ) (p : ℕ)
    → matches n i payload p ≡ true
    → (k : ℕ) → i ≤ k
    → k < i + n
    → k ≤ p
    → get_or payload (length payload - 1 - k) 0 ≡ p
unfolding matches
matches-true zero i payload p h k lo hi inside = absurd (omega arith)
matches-true (suc n) i payload p h k lo hi inside =
    let (here, later) =
      both (ltb p i || p == get_or payload (length payload - 1 - i) 0) (matches n (i + 1) payload p)
        h in
    elim (Bool-cases (k == i)) [
      | inl e ↦ let same : k ≡ i = ground arith in rw same (ground arith)
      | inr ne ↦ matches-true n (i + 1) payload p later k (ground arith) (omega arith) inside
    ]

matches-same :
    (n i : ℕ) (payload : List ℕ) (p : ℕ)
    → ((k : ℕ) → k ≤ p → get_or payload (length payload - 1 - k) 0 ≡ p)
    → matches n i payload p ≡ true
unfolding matches
matches-same zero i payload p same = refl
matches-same (suc n) i payload p same =
    ground (arith, same i, matches-same n (i + 1) payload p same)

-- For at least one byte and fewer than 2 ^ 31, `extractPadding` gives the length of the padding,
-- its last byte counted, and 255, where the last byte says a length that is there and all the
-- bytes of the padding are that byte. Otherwise it gives 1 and 0.
pub extract_padding_lem :
    (payload : List ℕ)
    → All IsByte payload
    → 1 ≤ length payload
    → length payload < 2147483648
    → (IsPadded payload
        × (extract_padding payload ≡ (get_or payload (length payload - 1) 0 + 1, 255)))
      ⊎ ((IsPadded payload → ⊥) × (extract_padding payload ≡ (1, 0)))
unfolding extract_padding msb_mask
extract_padding_lem payload bytes some_left small =
    let p = get_or payload (length payload - 1) 0 in
    let p1 : p < 256 = get_or-IsByte payload (length payload - 1) bytes in
    let n = if ltb (length payload) 256 then length payload else 256 in
    let n1 : n ≤ 256 = ground arith in
    let filled : ltb (length payload) 1 ≡ false = ground arith in
    elim (Bool-cases (ltb p (length payload))) [
      | inl within ↦
          let on : ((length payload - 1 + 18446744073709551616 - p)
                  % 18446744073709551616
                  / 2147483648
                  % 2
                == 0)
              ≡ true =
            ground arith in
          let (low, tested) = loop_lem n 0 payload p 255 bytes p1 (omega arith) (omega arith) in
          elim (Bool-cases (matches n 0 payload p)) [
            | inl yes_all ↦ inl (
              record {
                within = ltb→lt p (length payload) within;
                same = λ k h. matches-true n 0 payload p yes_all k (omega arith) (ground arith) h;
              },
              rw (filled, on, spread_lem _ low, tested, yes_all, (selected p p1).0),
            )
            | inr not_all ↦ inr (
              λ padded. true_false (sym (matches-same n 0 payload p padded.same) ∙ not_all),
              rw (filled, on, spread_lem _ low, tested, not_all, (selected p p1).1),
            )
          ]
      | inr beyond ↦
          let off : ((length payload - 1 + 18446744073709551616 - p)
                  % 18446744073709551616
                  / 2147483648
                  % 2
                == 0)
              ≡ false =
            ground arith in
          let (low, tested) = loop_lem n 0 payload p 0 bytes p1 (omega arith) (omega arith) in
          inr (
            λ padded. true_false (sym (lt→ltb p (length payload) padded.within) ∙ beyond),
            rw (filled, off, spread_lem _ low, tested, (selected p p1).1),
          )
    ]
  where
    true_false : true ≡ false → ⊥
    true_false e = cc

-- ===== src/Record/Padding/Written.antt =====
-- `extractPadding` on the padding that `encrypt` writes.
use disguise.Common.{
  ℕ, zero, suc, ◌+◌, ◌-◌, ◌<◌, ◌≤◌, ◌≡◌, refl, sym, ◌∙◌, List, [], ◌∷◌, ◌++◌, inl, inr, length,
  length-append, length-replicate, get_or, All, replicate, arith,
}
use disguise.Common.Bytes.{IsByte}
use disguise.Record.Padding.{extract_padding}
use disguise.Record.Padding.Valid.{IsPadded, extract_padding_lem}

get_or-replicate : (n v i : ℕ) → i < n → get_or (replicate n v) i 0 ≡ v
get_or-replicate zero v i h = absurd (omega arith)
get_or-replicate (suc n) v zero h = refl
get_or-replicate (suc n) v (suc i) h = get_or-replicate n v i (omega arith)

get_or-padding :
    (body : List ℕ) (n v i : ℕ)
    → length body ≤ i
    → i < length body + n
    → get_or (body ++ replicate n v) i 0 ≡ v
get_or-padding [] n v i lo hi = get_or-replicate n v i (omega arith)
get_or-padding (x ∷ body) n v zero lo hi = absurd (omega arith)
get_or-padding (x ∷ body) n v (suc i) lo hi = get_or-padding body n v i (omega arith) (omega arith)

replicate-IsByte : (n v : ℕ) → v < 256 → All IsByte (replicate n v)
replicate-IsByte zero v h = tt
replicate-IsByte (suc n) v h = (h, replicate-IsByte n v h)

pub append-IsByte : (xs ys : List ℕ) → All IsByte xs → All IsByte ys → All IsByte (xs ++ ys)
append-IsByte [] ys h k = k
append-IsByte (x ∷ xs) ys h k = (h.0, append-IsByte xs ys h.1 k)

pub extract_padding-replicate :
    (body : List ℕ) (p : ℕ)
    → All IsByte body
    → p < 256
    → length body + p + 1 < 2147483648
    → extract_padding (body ++ replicate (p + 1) p) ≡ (p + 1, 255)
extract_padding-replicate body p bytes small fits =
    let padded = body ++ replicate (p + 1) p in
    let long : length padded ≡ length body + p + 1 =
      omega (arith, length-append body (replicate (p + 1) p), length-replicate (p + 1) p) in
    let last : get_or padded (length padded - 1) 0 ≡ p =
      get_or-padding body (p + 1) p (length padded - 1) (omega (arith, long))
        (omega (arith, long)) in
    let is : IsPadded padded = record {
      within = omega (arith, last, long);
      same = λ k h.
          get_or-padding body (p + 1) p (length padded - 1 - k) (omega (arith, long, last, h))
            (omega (arith, long, last, h))
          ∙ sym last;
    } in
    elim (extract_padding_lem padded
      (append-IsByte body (replicate (p + 1) p) bytes (replicate-IsByte (p + 1) p small))
      (omega (arith, long)) (omega (arith, long))) [
        | inl good ↦ rw last at good.1
        | inr bad ↦ absurd (bad.0 is)
      ]

-- ===== src/Framing/Codec/Ends.antt =====
-- What a call of `EncodeCell` can end in.
use disguise.Common.{
  ℕ, ◌≡◌, refl, List, [], ◌++◌, ◌⊎◌, inl, inr, Bool, true, false, Outcome, ok, panic, ◌>>=◌, check,
}
use disguise.Common.Bytes.{slice, slice_from}
use disguise.Framing.{Cell}
use disguise.Framing.Codec.{header, content, encode_cell}

-- A call that returns or panics.
abbrev pub Settles : {A : Type 0} → Outcome A → Type 0
Settles {A} o = (o ≡ panic) ⊎ ((a : A) × (o ≡ ok a))

>>=-Settles :
    {A B : Type 0} (o : Outcome A) (next : A → Outcome B)
    → Settles o
    → ((a : A) → Settles (next a))
    → Settles (o >>= next)
>>=-Settles o next (inl e) h = inl (rw e refl)
>>=-Settles o next (inr (a, e)) h = rw e (h a)

check-Settles : (b : Bool) → Settles (check b)
check-Settles true = inr (tt, refl)
check-Settles false = inl refl

slice-Settles : (lo hi : ℕ) (s spare : List ℕ) → Settles (slice lo hi s spare)
unfolding slice
slice-Settles lo hi s spare = >>=-Settles (check _) _ (check-Settles _) (λ _. inr (_, refl))

slice_from-Settles : (lo : ℕ) (s : List ℕ) → Settles (slice_from lo s)
unfolding slice_from
slice_from-Settles lo s = >>=-Settles (check _) _ (check-Settles _) (λ _. inr (_, refl))

content-Settles : (c : Cell) → Settles (content c)
unfolding content
content-Settles c = >>=-Settles (check _) _ (check-Settles _) (λ _.
    >>=-Settles (slice 0 c.rand_offset c.padding []) _ (slice-Settles 0 c.rand_offset c.padding [])
      (λ front. >>=-Settles (check _) _ (check-Settles _) (λ _.
        >>=-Settles (slice_from c.rand_offset c.padding) _
          (slice_from-Settles c.rand_offset c.padding) (λ back. inr (_, refl)))))

-- `EncodeCell` returns bytes or panics, on any cell.
pub encode_cell-Settles : (c : Cell) → Settles (encode_cell c)
unfolding encode_cell
encode_cell-Settles c =
    >>=-Settles (content c) (λ body. ok (header c ++ body)) (content-Settles c)
      (λ body. inr (_, refl))

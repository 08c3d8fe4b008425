-- ===== src/Record/Padding/Bits.antt =====
-- Bytes under `&`, `^` and shifts, by tables.
use disguise.Common.{
  ℕ, zero, suc, ◌<◌, ◌≡◌, refl, Bool, true, false, not, ◌&&◌, ltb, ◌==◌, ==_iff, if◌then◌else◌,
  arith, Bool-cases, inl, inr,
}
use disguise.Record.Padding.{spread, kept}
use disguise.Common.{ltb→lt, ap, ◌∙◌}
use Prim.Native.Nat.{bit_and, bit_xor}

pub and_eq : (a b : Bool) → (a && b) ≡ true → (a ≡ true) × (b ≡ true)
and_eq true b h = (refl, h)
and_eq false b h = cc

-- A test passes on the first `n` numbers.
unfoldable pub passes : (ℕ → Bool) → ℕ → Bool
passes test zero = true
passes test (suc n) = passes test n && test n

pub passes-at : (test : ℕ → Bool) (n : ℕ) → passes test n ≡ true → (x : ℕ) → x < n → test x ≡ true
unfolding passes
passes-at test zero whole x inside = absurd (omega (arith, inside))
passes-at test (suc n) whole x inside =
    let (earlier, last) = and_eq (passes test n) (test n) whole in
    elim (Bool-cases (x == n)) [
      | inl same ↦ rw ((==_iff x n).0 same) last
      | inr other ↦ passes-at test n earlier x (ground arith)
    ]

-- Two tests agree.
abbrev agree : Bool → Bool → Bool
agree true b = b
agree false b = not b

agree_eq : (a b : Bool) → agree a b ≡ true → a ≡ b
agree_eq true true h = refl
agree_eq true false h = cc
agree_eq false true h = cc
agree_eq false false h = refl

cleared : ℕ → ℕ → Bool
cleared g d =
    ltb (bit_and g (bit_xor d 255)) 256
    && agree (bit_and g (bit_xor d 255) == 255) (g == 255 && d == 0)

cleared_table : passes (λ g. passes (cleared g) 256) 256 ≡ true
unfolding passes cleared
cleared_table = refl

differs : ℕ → ℕ → Bool
differs p b = ltb (bit_xor p b) 256 && agree (bit_xor p b == 0) (p == b)

differs_table : passes (λ p. passes (differs p) 256) 256 ≡ true
unfolding passes differs
differs_table = refl

masked_table :
    passes
      (λ x. bit_and 255 x == x && bit_and 0 x == 0 && bit_and x 255 == x && bit_and x 0 == 0)
      256
    ≡ true
unfolding passes
masked_table = refl

spread_table : passes (λ x. spread x == (if x == 255 then 255 else 0)) 256 ≡ true
unfolding passes spread
spread_table = refl

masked :
    (x : ℕ)
    → x < 256
    → (bit_and 255 x ≡ x) × (bit_and 0 x ≡ 0) × (bit_and x 255 ≡ x) × (bit_and x 0 ≡ 0)
masked x h =
    let (left, d) = and_eq _ _ (passes-at _ 256 masked_table x h) in
    let (left', c) = and_eq _ _ left in
    let (a, b) = and_eq _ _ left' in
    ((==_iff _ _).0 a, (==_iff _ _).0 b, (==_iff _ _).0 c, (==_iff _ _).0 d)

xor_byte : (p b : ℕ) → p < 256 → b < 256 → (bit_xor p b < 256) × ((bit_xor p b == 0) ≡ (p == b))
unfolding differs
xor_byte p b h k =
    let d = bit_xor p b in
    let found =
      passes-at (differs p) 256 (passes-at (λ p. passes (differs p) 256) 256 differs_table p h) b
        k in
    let (low, zeroed) = and_eq (ltb d 256) (agree (d == 0) (p == b)) found in
    (ltb→lt d 256 low, agree_eq (d == 0) (p == b) zeroed)

clear_byte :
    (g d : ℕ)
    → g < 256
    → d < 256
    → (bit_and g (bit_xor d 255) < 256)
      × ((bit_and g (bit_xor d 255) == 255) ≡ (g == 255 && d == 0))
unfolding cleared
clear_byte g d h k =
    let x = bit_and g (bit_xor d 255) in
    let found =
      passes-at (cleared g) 256 (passes-at (λ g. passes (cleared g) 256) 256 cleared_table g h) d
        k in
    let (low, same) = and_eq (ltb x 256) (agree (x == 255) (g == 255 && d == 0)) found in
    (ltb→lt x 256 low, agree_eq (x == 255) (g == 255 && d == 0) same)

-- Where the mask is on, a round keeps 255 exactly if the byte is the length of the padding.
pub kept_on :
    (good p b : ℕ)
    → good < 256
    → p < 256
    → b < 256
    → (kept good 255 p b < 256) × ((kept good 255 p b == 255) ≡ (good == 255 && p == b))
unfolding kept
kept_on good p b g1 p1 b1 =
    let (d1, same) = xor_byte p b p1 b1 in
    let (low, cleared_bits) = clear_byte good (bit_xor p b) g1 d1 in
    rw ((masked p p1).0, (masked b b1).0) (low, cleared_bits ∙ ap (λ t. good == 255 && t) same)

-- Where it is off, a round changes nothing.
pub kept_off : (good p b : ℕ) → good < 256 → p < 256 → b < 256 → kept good 0 p b ≡ good
unfolding kept
kept_off good p b g1 p1 b1 = rw ((masked p p1).1, (masked b b1).1) ((masked good g1).2)

pub spread_lem : (x : ℕ) → x < 256 → spread x ≡ (if x == 255 then 255 else 0)
spread_lem x h = (==_iff _ _).0 (passes-at _ 256 spread_table x h)

pub selected : (x : ℕ) → x < 256 → (bit_and x 255 ≡ x) × (bit_and x 0 ≡ 0)
selected x h = ((masked x h).2, (masked x h).3)

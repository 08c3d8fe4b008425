-- ===== src/Messages/Request.antt =====
-- Encoding a certificate request and reading it back.
use disguise.Common.{
  ℕ, zero, suc, ◌+◌, ◌-◌, ◌*◌, ◌/◌, ◌%◌, ◌<◌, ◌≤◌, ◌≡◌, refl, ap, sym, ◌∙◌, List, [], ◌∷◌, ◌++◌,
  Bool, true, false, ltb, leb, ◌==◌, ==_refl, ◌||◌, if◌then◌else◌, All, some, length, length-append,
  take, drop, take_append_left, drop_append_left, drop-drop, take_all, arith,
}
use disguise.Common.Bytes.{be}
use disguise.Messages.{
  Message, certificate_request, algorithm_bytes, authority_bytes, authority_octets, encoding,
  u16_at, u24_at, take_algorithms, read_algorithms, take_authorities, read_authorities,
  read_request, with_algorithms, unmarshal_request, request_tail, request_length,
}
use mathlib.Core.List.{append_assoc}
use mathlib.Core.Option as Option

pub length-algorithm_bytes : (xs : List ℕ) → length (algorithm_bytes xs) ≡ length xs * 2
unfolding algorithm_bytes be
length-algorithm_bytes [] = refl
length-algorithm_bytes (x ∷ xs) = omega (arith, length-algorithm_bytes xs)

pub length-authority_bytes :
    (cs : List (List ℕ)) → length (authority_bytes cs) ≡ authority_octets cs
unfolding authority_bytes authority_octets be
length-authority_bytes [] = refl
length-authority_bytes (c ∷ cs) =
    omega (arith, length-append c (authority_bytes cs), length-authority_bytes cs)

u16_at-be : (n : ℕ) (rest : List ℕ) → n < 65536 → u16_at 0 (be 2 n ++ rest) ≡ n
unfolding be
u16_at-be n rest small = omega arith

take_algorithms-algorithm_bytes :
    (xs rest : List ℕ)
    → All (λ a. a < 65536) xs
    → take_algorithms (length xs) (algorithm_bytes xs ++ rest) ≡ (xs, rest)
unfolding take_algorithms algorithm_bytes be
take_algorithms-algorithm_bytes [] rest fits = refl
take_algorithms-algorithm_bytes (x ∷ xs) rest fits =
    let word : x / 256 % 256 * 256 + x % 256 ≡ x = omega (arith, fits.0) in
    rw (take_algorithms-algorithm_bytes xs rest fits.1, word) refl

read_algorithms-bytes :
    (xs rest : List ℕ)
    → All (λ a. a < 65536) xs
    → length xs * 2 < 65536
    → read_algorithms true (be 2 (length xs * 2) ++ (algorithm_bytes xs ++ rest)) ≡ some (xs, rest)
unfolding read_algorithms be
read_algorithms-bytes xs rest fits short =
    let n = length xs * 2 in
    let word : n / 256 % 256 * 256 + n % 256 ≡ n = omega arith in
    let half : n / 2 ≡ length xs = omega arith in
    let long : length (algorithm_bytes xs ++ rest) ≡ n + length rest =
      omega (arith, length-append (algorithm_bytes xs) rest, length-algorithm_bytes xs) in
    let even : (n % 2 == 0) ≡ true = ground arith in
    rw (word, half, even, take_algorithms-algorithm_bytes xs rest fits) (ground (arith, long))

-- A round of the loop on the authorities.
take_authorities-step :
    (fuel : ℕ) (c rest : List ℕ)
    → length c < 65536
    → take_authorities (suc fuel) (be 2 (length c) ++ (c ++ rest))
      ≡ Option.map (◌∷◌ c) (take_authorities fuel rest)
unfolding take_authorities be
take_authorities-step fuel c rest short =
    let n = length c in
    let word : n / 256 % 256 * 256 + n % 256 ≡ n = omega arith in
    let long : length (c ++ rest) ≡ n + length rest = length-append c rest in
    let here : take n (c ++ rest) ≡ c = take_append_left n c rest refl in
    let later : drop (2 + n) (n / 256 % 256 ∷ n % 256 ∷ (c ++ rest)) ≡ rest =
      sym (drop-drop 2 n (n / 256 % 256 ∷ n % 256 ∷ (c ++ rest)))
      ∙ drop_append_left n c rest refl in
    rw (word, here, later) (ground (arith, long))

no_authorities : (fuel : ℕ) → take_authorities (suc fuel) [] ≡ some []
unfolding take_authorities
no_authorities fuel = refl

take_authorities-authority_bytes :
    (fuel : ℕ) (cs : List (List ℕ))
    → authority_octets cs < 65536
    → authority_octets cs ≤ fuel
    → take_authorities (suc fuel) (authority_bytes cs) ≡ some cs
unfolding authority_bytes authority_octets
take_authorities-authority_bytes fuel [] fits enough = no_authorities fuel
take_authorities-authority_bytes zero (c ∷ cs) fits enough = absurd (omega arith)
take_authorities-authority_bytes (suc fuel) (c ∷ cs) fits enough =
    take_authorities-step (suc fuel) c (authority_bytes cs) (omega arith)
    ∙ ap (Option.map (◌∷◌ c)) (take_authorities-authority_bytes fuel cs (omega arith) (omega arith))

read_authorities-bytes :
    (cs : List (List ℕ))
    → authority_octets cs < 65536
    → read_authorities (be 2 (authority_octets cs) ++ authority_bytes cs) ≡ some cs
unfolding read_authorities be
read_authorities-bytes cs fits =
    let n = authority_octets cs in
    let word : n / 256 % 256 * 256 + n % 256 ≡ n = omega arith in
    let long = length-authority_bytes cs in
    let whole : take n (authority_bytes cs) ≡ authority_bytes cs =
      take_all n (authority_bytes cs) (omega (arith, long)) in
    rw (word, whole, take_authorities-authority_bytes n cs fits (omega arith))
      (ground (arith, long))

-- The parts of a request fit their length fields, and it has certificate types.
pub record IsRequest (has : Bool) (types algorithms : List ℕ) (authorities : List (List ℕ))
    : Type 0 where
  pub some_types : 1 ≤ length types
  pub types_fit : length types < 256
  pub algorithms_fit : All (λ a. a < 65536) algorithms
  pub algorithms_short : length algorithms * 2 < 65536
  pub none_without : (if has then 0 else length algorithms) ≡ 0
  pub authorities_short : authority_octets authorities < 65536

read_request-tail :
    (has : Bool) (types algorithms : List ℕ) (authorities : List (List ℕ))
    → IsRequest has types algorithms authorities
    → read_request has types (request_tail has algorithms authorities)
      ≡ some (certificate_request has types algorithms authorities)
unfolding read_request with_algorithms
read_request-tail true types algorithms authorities is =
    let rest = be 2 (authority_octets authorities) ++ authority_bytes authorities in
    rw
      (
        append_assoc (be 2 (length algorithms * 2)) (algorithm_bytes algorithms) rest,
        read_algorithms-bytes algorithms rest is.algorithms_fit is.algorithms_short,
        read_authorities-bytes authorities is.authorities_short,
      )
      refl
read_request-tail false types [] authorities is =
    rw (read_authorities-bytes authorities is.authorities_short) refl
read_request-tail false types (x ∷ algorithms) authorities is =
    absurd (omega (arith, is.none_without))

length-request_tail :
    (has : Bool) (types algorithms : List ℕ) (authorities : List (List ℕ))
    → 1 + length types + length (request_tail has algorithms authorities)
      ≡ request_length has types algorithms authorities
unfolding be
length-request_tail true types algorithms authorities = omega (
  arith,
  length-append (algorithm_bytes algorithms)
      (be 2 (authority_octets authorities) ++ authority_bytes authorities),
  length-algorithm_bytes algorithms,
  length-authority_bytes authorities,
)
length-request_tail false types algorithms authorities =
    omega (arith, length-authority_bytes authorities)

-- The frame of a request: what follows the types is read as it is.
unmarshal_request-frame :
    (has : Bool) (types tail : List ℕ) (m : ℕ) (request : Message)
    → 1 ≤ length types
    → length types < 256
    → 1 ≤ length tail
    → 1 + length types + length tail ≡ m
    → m < 16777216
    → read_request has types tail ≡ some request
    → unmarshal_request has (13 ∷ (be 3 m ++ (length types % 256 ∷ (types ++ tail)))) ≡ some request
unfolding unmarshal_request be
unmarshal_request-frame has types tail m request some_types types_fit some_tail long small read =
    let n = length types in
    let whole = 13 ∷ m / 256 / 256 % 256 ∷ m / 256 % 256 ∷ m % 256 ∷ n ∷ (types ++ tail) in
    let both : length (types ++ tail) ≡ n + length tail = length-append types tail in
    let count : n % 256 ≡ n = omega (arith, types_fit) in
    let front : take n (types ++ tail) ≡ types = take_append_left n types tail refl in
    let back : drop (5 + n) whole ≡ tail =
      sym (drop-drop 5 n whole) ∙ drop_append_left n types tail refl in
    let total : length whole ≡ 4 + m = omega (arith, both, long) in
    let word : u24_at 1 whole ≡ m = omega arith in
    let modulus : (4 + m + 4294967296 - 4) % 4294967296 ≡ m = omega arith in
    let long_enough : ltb (4 + m) 5 ≡ false = ground (arith, long) in
    let some_left : (n == 0 || leb (4 + m - 5) n) ≡ false = ground (arith, long) in
    rw (count, total, word, modulus, long_enough, ==_refl m, some_left, front, back) read

request_length-small :
    (has : Bool) (types algorithms : List ℕ) (authorities : List (List ℕ))
    → IsRequest has types algorithms authorities
    → request_length has types algorithms authorities < 16777216
request_length-small true types algorithms authorities is =
    omega (arith, is.types_fit, is.algorithms_short, is.authorities_short)
request_length-small false types algorithms authorities is =
    omega (arith, is.types_fit, is.authorities_short)

request_tail-filled :
    (has : Bool) (algorithms : List ℕ) (authorities : List (List ℕ))
    → 1 ≤ length (request_tail has algorithms authorities)
unfolding be
request_tail-filled true algorithms authorities = omega arith
request_tail-filled false algorithms authorities = omega arith

pub unmarshal_request-encoding :
    (has : Bool) (types algorithms : List ℕ) (authorities : List (List ℕ))
    → IsRequest has types algorithms authorities
    → unmarshal_request has (encoding (certificate_request has types algorithms authorities))
      ≡ some (certificate_request has types algorithms authorities)
unfolding encoding
unmarshal_request-encoding has types algorithms authorities is =
    unmarshal_request-frame has types (request_tail has algorithms authorities)
      (request_length has types algorithms authorities)
      (certificate_request has types algorithms authorities) is.some_types is.types_fit
      (request_tail-filled has algorithms authorities)
      (length-request_tail has types algorithms authorities)
      (request_length-small has types algorithms authorities is)
      (read_request-tail has types algorithms authorities is)

-- ===== src/Common/Endings.antt =====
-- How the calls of the record layer end: `Ends` and `Gives` say it of the outcome, with rules for the
-- chains that it comes from.
use Prim.Native.Nat.{zero}
use disguise.Common.Outcomes.{
  Error, alert, Outcome, ok, err, panic, blocked, out_of_fuel, ◌>>=◌, either, on_error, check,
  or_panic,
}
use disguise.Common.Tests.{if◌then◌else◌}
use mathlib.Core.Path.{◌≡◌, refl}
use mathlib.Core.Logic.{◌≢◌}
use mathlib.Core.Bool.{Bool, true, false}
use mathlib.Core.Option.{Option, none, some}

abbrev pub is_close_notify : Error → Bool
is_close_notify (alert zero) = true
is_close_notify e = false

-- A call that does not use up its fuel, and whose error is not the alert of a close.
pub data Ends {ℓ} {A : Type ℓ} : Outcome A → Type ℓ where
  ends_ok : {x : A} → Ends (ok x)
  ends_err : {e : Error} → is_close_notify e ≡ false → Ends (err e)
  ends_panic : Ends panic
  ends_blocked : Ends blocked

pub >>=-Ends {ℓ κ} :
    {A : Type ℓ} {B : Type κ} (first : Outcome A) (next : A → Outcome B)
    → Ends first
    → ((x : A) → Ends (next x))
    → Ends (first >>= next)
>>=-Ends (ok x) next h k = k x
>>=-Ends (err e) next (ends_err other) k = ends_err other
>>=-Ends panic next h k = ends_panic
>>=-Ends blocked next h k = ends_blocked
>>=-Ends out_of_fuel next h k = elim h [ ]

pub either-Ends {ℓ κ} :
    {A : Type ℓ} {B : Type κ} (first : Outcome A) (next : A → Outcome B)
    (failed : Error → Outcome B)
    → Ends first
    → ((x : A) → Ends (next x))
    → ((e : Error) → is_close_notify e ≡ false → Ends (failed e))
    → Ends (either first next failed)
either-Ends (ok x) next failed h k l = k x
either-Ends (err e) next failed (ends_err other) k l = l e other
either-Ends panic next failed h k l = ends_panic
either-Ends blocked next failed h k l = ends_blocked
either-Ends out_of_fuel next failed h k l = elim h [ ]

pub if-Ends {ℓ} :
    {A : Type ℓ} (b : Bool) (x y : Outcome A) → Ends x → Ends y → Ends (if b then x else y)
if-Ends true x y h k = h
if-Ends false x y h k = k

pub on_error-Ends {ℓ} :
    {A : Type ℓ} (e : Option Error) (failed : Error → Outcome A) (next : Outcome A)
    → ((e : Error) → Ends (failed e))
    → Ends next
    → Ends (on_error e failed next)
on_error-Ends none failed next h k = k
on_error-Ends (some e) failed next h k = h e

pub check-Ends : (b : Bool) → Ends (check b)
check-Ends true = ends_ok
check-Ends false = ends_panic

pub or_panic-Ends {ℓ} : {A : Type ℓ} (o : Option A) → Ends (or_panic o)
or_panic-Ends none = ends_panic
or_panic-Ends (some a) = ends_ok

pub ruleset ending = (
  refl, ends_ok, ends_err, ends_panic, ends_blocked, >>=-Ends, either-Ends, if-Ends, on_error-Ends,
  check-Ends, or_panic-Ends,
)

-- A call that panics, waits forever, or returns what `P` holds of; it returns no error of its own.
pub data Gives {ℓ} {A : Type ℓ} (P : A → Type 0) : Outcome A → Type ℓ where
  gives_ok : {x : A} → P x → Gives P (ok x)
  gives_panic : Gives P panic
  gives_blocked : Gives P blocked

abbrev pub Always {ℓ} : {A : Type ℓ} → A → Type 0
Always x = Unit {0}

pub >>=-Gives {ℓ κ} :
    {A : Type ℓ} {B : Type κ} {P : A → Type 0} {Q : B → Type 0} (first : Outcome A)
    (next : A → Outcome B)
    → Gives P first
    → ((x : A) → P x → Gives Q (next x))
    → Gives Q (first >>= next)
>>=-Gives (ok x) next (gives_ok p) k = k x p
>>=-Gives (err e) next h k = elim h [ ]
>>=-Gives panic next h k = gives_panic
>>=-Gives blocked next h k = gives_blocked
>>=-Gives out_of_fuel next h k = elim h [ ]

pub either-Gives {ℓ κ} :
    {A : Type ℓ} {B : Type κ} {Q : B → Type 0} (first : Outcome A) (next : A → Outcome B)
    (failed : Error → Outcome B)
    → Ends first
    → ((x : A) → Gives Q (next x))
    → ((e : Error) → is_close_notify e ≡ false → Gives Q (failed e))
    → Gives Q (either first next failed)
either-Gives (ok x) next failed h k l = k x
either-Gives (err e) next failed (ends_err other) k l = l e other
either-Gives panic next failed h k l = gives_panic
either-Gives blocked next failed h k l = gives_blocked
either-Gives out_of_fuel next failed h k l = elim h [ ]

pub if-Gives {ℓ} :
    {A : Type ℓ} {P : A → Type 0} (b : Bool) (x y : Outcome A)
    → Gives P x
    → Gives P y
    → Gives P (if b then x else y)
if-Gives true x y h k = h
if-Gives false x y h k = k

pub on_error-Gives {ℓ} :
    {A : Type ℓ} {P : A → Type 0} (e : Option Error) (failed : Error → Outcome A) (next : Outcome A)
    → ((e : Error) → Gives P (failed e))
    → Gives P next
    → Gives P (on_error e failed next)
on_error-Gives none failed next h k = k
on_error-Gives (some e) failed next h k = h e

pub ok-Always {ℓ} : {A : Type ℓ} (x : A) → Gives Always (ok x)
ok-Always x = gives_ok tt

pub >>=-Always {ℓ κ} :
    {A : Type ℓ} {B : Type κ} {Q : B → Type 0} (first : Outcome A) (next : A → Outcome B)
    → Gives Always first
    → ((x : A) → Gives Q (next x))
    → Gives Q (first >>= next)
>>=-Always first next h k = >>=-Gives first next h (λ x p. k x)

pub ruleset giving =
    (ok-Always, gives_panic, gives_blocked, >>=-Always, either-Gives, if-Gives, on_error-Gives)

pub Gives-map {ℓ} :
    {A : Type ℓ} {P Q : A → Type 0} {o : Outcome A} → Gives P o → ((x : A) → P x → Q x) → Gives Q o
Gives-map (gives_ok p) f = gives_ok (f _ p)
Gives-map gives_panic f = gives_panic
Gives-map gives_blocked f = gives_blocked

pub Gives-ends {ℓ} : {A : Type ℓ} {P : A → Type 0} (o : Outcome A) → Gives P o → o ≢ out_of_fuel
Gives-ends (ok x) h e = cc
Gives-ends (err e') h e = cc
Gives-ends panic h e = cc
Gives-ends blocked h e = cc
Gives-ends out_of_fuel h e = elim h [ ]

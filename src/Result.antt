-- ===== src/Result.antt =====
-- source/result.h and source/result.c: where an error comes from, and what a routine can do besides returning.
use rr_launcher.Prelude.{
  Option, none, some, String, Bool, true, false, ◌≡◌, refl, subst, if◌then◌else◌,
}

-- `enum rrc_result_error_source`
pub data ErrorSource : Type 0 where
  curl errno zip corrupted_settingsfile update_misc : ErrorSource
  corrupted_versionfile sd_card wiisocket_init corrupted_rr_xml version_mismatch : ErrorSource

-- What a call does: it returns a value (`rrc_result_success`, where there is none), it returns what an
-- `rrc_result_create_error_` function makes of a source and a context (the error number of the library
-- that failed is left out), it stops the program by a failed assertion or a fatal error, or it leaves
-- what C defines.
pub data Outcome {ℓ} (A : Type ℓ) : Type ℓ where
  done : A → Outcome A
  error : ErrorSource → String → Outcome A
  fatal : String → Outcome A
  fault : Outcome A

-- `TRY(x)`, and calls that are made one after the other.
infixl 5 ◌>>=◌ ◌>>◌
abbrev pub ◌>>=◌ {ℓ κ} : {A : Type ℓ} {B : Type κ} → Outcome A → (A → Outcome B) → Outcome B
done a >>= k = k a
error source context >>= k = error source context
fatal message >>= k = fatal message
fault >>= k = fault

abbrev pub ◌>>◌ {ℓ κ} : {A : Type ℓ} {B : Type κ} → Outcome A → Outcome B → Outcome B
m >> k = m >>= λ _. k

-- `RRC_ASSERT(condition, what)`
abbrev pub assert : Bool → String → Outcome (Unit {0})
assert true what = done tt
assert false what = fatal what

-- A step that C defines only under a condition.
abbrev pub defined : Bool → Outcome (Unit {0})
defined true = done tt
defined false = fault

-- A read that has no value is one out of range.
abbrev pub read {ℓ} : {A : Type ℓ} → Option A → Outcome A
read (some a) = done a
read none = fault

-- A value that the program stops without.
abbrev pub expect {ℓ} : {A : Type ℓ} → Option A → String → Outcome A
expect (some a) message = done a
expect none message = fatal message

pub >>=-eq-done {ℓ κ} :
    {A : Type ℓ} {B : Type κ} (m : Outcome A) (k : A → Outcome B) {b : B}
    → (m >>= k) ≡ done b
    → (a : A) × (m ≡ done a) × (k a ≡ done b)
>>=-eq-done (done a) k h = (a, refl, h)
>>=-eq-done (error s c) k h = cc
>>=-eq-done (fatal c) k h = cc
>>=-eq-done fault k h = cc

-- What holds of the value, if the call returns one.
abbrev pub Ensures {ℓ κ} : {A : Type ℓ} → (A → Type κ) → Outcome A → Type κ
Ensures P (done a) = P a
Ensures P (error source context) = Unit
Ensures P (fatal message) = Unit
Ensures P fault = Unit

pub Ensures-done {ℓ κ} :
    {A : Type ℓ} (P : A → Type κ) (o : Outcome A) (a : A) → Ensures P o → o ≡ done a → P a
Ensures-done P o a h e = subst (Ensures P) e h

pub done-inj {ℓ} : {A : Type ℓ} {a b : A} → done a ≡ done b → a ≡ b
done-inj e = cc

-- A call that returns.
abbrev pub Returns {ℓ} : {A : Type ℓ} → Outcome A → Type ℓ
Returns {A} o = (a : A) × (o ≡ done a)

pub Returns-if {ℓ} :
    {A : Type ℓ} (b : Bool) {x y : Outcome A}
    → (b ≡ true → Returns x)
    → (b ≡ false → Returns y)
    → Returns (if b then x else y)
Returns-if true p q = p refl
Returns-if false p q = q refl

pub Returns->>= {ℓ κ} :
    {A : Type ℓ} {B : Type κ} (m : Outcome A) {k : A → Outcome B}
    → Returns m
    → ((a : A) → Returns (k a))
    → Returns (m >>= k)
Returns->>= (done a) r p = p a
Returns->>= (error s c) (a, e) p = cc
Returns->>= (fatal c) (a, e) p = cc
Returns->>= fault (a, e) p = cc

pub >>=-congr {ℓ κ} :
    {A : Type ℓ} {B : Type κ} (m : Outcome A) {k l : A → Outcome B}
    → ((a : A) → k a ≡ l a)
    → (m >>= k) ≡ (m >>= l)
>>=-congr (done a) e = e a
>>=-congr (error s c) e = refl
>>=-congr (fatal c) e = refl
>>=-congr fault e = refl

pub >>=-assoc {ℓ κ μ} :
    {A : Type ℓ} {B : Type κ} {C : Type μ} (m : Outcome A) (k : A → Outcome B) (l : B → Outcome C)
    → (m >>= λ a. k a >>= l) ≡ ((m >>= k) >>= l)
>>=-assoc (done a) k l = refl
>>=-assoc (error s c) k l = refl
>>=-assoc (fatal c) k l = refl
>>=-assoc fault k l = refl
